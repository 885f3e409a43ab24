-- ===== src/Control/Limiter.antt =====
-- internal/control/limiter.go: at most maxInFlight requests at a time, and a token bucket.
-- Each method holds the mutex; the context and the clock are arguments of Acquire.
pub mod Bounds
use gpuswarm.Common.{
  ℕ, Bool, true, false, Option, none, some, ◌≡◌, refl, arith, if◌then◌else◌, List, [], ◌∷◌, Result,
  ok, err, ◌||◌, Bool-cases, inl, inr,
}
use gpuswarm.Common.Int.{
  ℤ, pos, negsuc, ◌+ℤ◌, ◌-ℤ◌, ◌≤ℤ◌, leb_ℤ, ltb_ℤ, wrap64, quot_ℤ, rem_ℤ, sub_ℕ, max_int64, IsInt64,
  wrap64_of_IsInt64, +ℤ_parts, -ℤ_parts, pos_part, neg_part,
}
use gpuswarm.Common.Floats.{Float64, le, lt_irrefl}
use gpuswarm.Common.Clock.{time_sub}
use gpuswarm.Control.{Error, rate_limited, too_many_in_flight, context_done}

pub record Limiter (F : Type 0) : Type 0 where
  pub in_flight : ℤ
  pub max_in_flight : ℤ
  pub tokens : F
  pub rate_per_second : F
  pub burst : F
  pub last_refill : ℕ

module _ (fl : Float64) where
  open fl use {F, add, sub, mul, div, lt, of_int, milli}

  unfoldable pub new_limiter : ℤ → F → ℤ → ℕ → Limiter F
  new_limiter max_in_flight rate burst now = record {
    in_flight = pos 0;
    max_in_flight = max_in_flight;
    tokens = of_int burst;
    rate_per_second = rate;
    burst = of_int burst;
    last_refill = now;
  }

  -- Duration.Seconds: whole seconds, and the nanoseconds that are left.
  unfoldable pub seconds : ℤ → F
  seconds d =
      add (of_int (quot_ℤ d 1_000_000_000))
        (div (of_int (rem_ℤ d 1_000_000_000)) (of_int (pos 1_000_000_000)))

  unfoldable pub refill_locked : Limiter F → ℕ → Limiter F
  unfolding seconds
  refill_locked l now =
      let elapsed = seconds (time_sub now l.last_refill) in
      let filled = add l.tokens (mul elapsed l.rate_per_second) in
      if le fl elapsed (milli 0)
      then l
      else record l { tokens = if lt l.burst filled then l.burst else filled; last_refill = now }

  -- `done` says that the context has ended.
  unfoldable pub acquire : Limiter F → Bool → ℕ → Limiter F × Option Error
  acquire l done now =
      let refilled = refill_locked l now in
      if done
      then (l, some context_done)
      else if leb_ℤ l.max_in_flight l.in_flight
      then (l, some too_many_in_flight)
      else if lt refilled.tokens (milli 1000)
      then (refilled, some rate_limited)
      else (
        record refilled {
          tokens = sub refilled.tokens (milli 1000);
          in_flight = wrap64 (l.in_flight +ℤ pos 1);
        },
        none,
      )

  unfoldable pub release : Limiter F → Limiter F
  release l =
      if ltb_ℤ (pos 0) l.in_flight
      then record l { in_flight = wrap64 (l.in_flight -ℤ pos 1) }
      else l
