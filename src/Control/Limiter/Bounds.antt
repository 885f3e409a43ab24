-- ===== src/Control/Limiter/Bounds.antt =====
-- What the limiter keeps within bounds, call by call and over any sequence of calls.
use gpuswarm.Common.{
  ℕ, ◌≤◌, Bool, true, false, none, some, ◌≡◌, arith, if◌then◌else◌, List, [], ◌∷◌, Option-cases,
  inl, inr, ◌↔◌,
}
use gpuswarm.Common.Int.{
  ℤ, pos, ◌+ℤ◌, ◌-ℤ◌, ◌≤ℤ◌, ltb_ℤ, wrap64, max_int64, wrap64_of_IsInt64, +ℤ_parts, -ℤ_parts,
}
use gpuswarm.Common.Floats.{Float64, lt_irrefl}
use gpuswarm.Common.Clock.{time_sub}
use gpuswarm.Control.{Error}
use gpuswarm.Control.Limiter.{Limiter, new_limiter, seconds, refill_locked, acquire, release}

module _ (fl : Float64) where
  open fl use {F, add, sub, mul, lt, of_int, milli}

  pub record Slots (l : Limiter F) : Type 0 where
    pub not_negative : pos 0 ≤ℤ l.in_flight
    pub within_limit : l.in_flight ≤ℤ l.max_in_flight
    pub limit_fits : l.max_in_flight ≤ℤ max_int64

  pub record Bucket (l : Limiter F) : Type 0 where
    pub tokens_not_negative : lt l.tokens (milli 0) ≡ false
    pub tokens_within_burst : lt l.burst l.tokens ≡ false
    pub rate_not_negative : lt l.rate_per_second (milli 0) ≡ false
    pub burst_not_negative : lt l.burst (milli 0) ≡ false

  pub record Inv (l : Limiter F) : Type 0 where
    pub slots : Slots l
    pub bucket : Bucket l

  refill-Slots : (l : Limiter F) (now : ℕ) → Slots l → Slots (refill_locked fl l now)
  unfolding refill_locked
  refill-Slots l now v = ground arith

  refill_tokens_not_negative :
      (l : Limiter F) (now : ℕ) → Bucket l → lt (refill_locked fl l now).tokens (milli 0) ≡ false
  unfolding refill_locked
  refill_tokens_not_negative l now v = ground (
    arith,
    fl.mul_nonneg (seconds fl (time_sub now l.last_refill)) l.rate_per_second,
    fl.add_nonneg l.tokens (mul (seconds fl (time_sub now l.last_refill)) l.rate_per_second),
  )

  refill_tokens_within_burst :
      (l : Limiter F) (now : ℕ)
      → Bucket l
      → lt (refill_locked fl l now).burst (refill_locked fl l now).tokens ≡ false
  unfolding refill_locked
  refill_tokens_within_burst l now v = ground (arith, lt_irrefl fl l.burst)

  refill-Bucket : (l : Limiter F) (now : ℕ) → Bucket l → Bucket (refill_locked fl l now)
  refill-Bucket l now v = record {
    tokens_not_negative = refill_tokens_not_negative l now v;
    tokens_within_burst = refill_tokens_within_burst l now v;
    rate_not_negative = unfold refill_locked in ground arith;
    burst_not_negative = unfold refill_locked in ground arith;
  }

  wrap64_in_range : (a : ℤ) → pos 0 ≤ℤ a → a ≤ℤ max_int64 → wrap64 a ≡ a
  wrap64_in_range a h k = wrap64_of_IsInt64 a (record { lower = omega arith; upper = omega arith })

  refill_fields :
      (l : Limiter F) (now : ℕ)
      → ((refill_locked fl l now).in_flight ≡ l.in_flight)
        × ((refill_locked fl l now).max_in_flight ≡ l.max_in_flight)
  unfolding refill_locked
  refill_fields l now = ground arith

  -- Acquire succeeds exactly when the context is live, a slot is free and the bucket, refilled to
  -- the time of the call, holds a whole token.
  pub acquire_ok_iff :
      (l : Limiter F) (done : Bool) (now : ℕ)
      → ((acquire fl l done now).1 ≡ none) ↔ (
          (done ≡ false)
          × (ltb_ℤ l.in_flight l.max_in_flight ≡ true)
          × (lt (refill_locked fl l now).tokens (milli 1000) ≡ false))
  unfolding acquire
  acquire_ok_iff l done now = (λ h. ground arith, λ h. ground arith)

  -- A successful Acquire takes one slot.
  pub acquire_takes_slot :
      (l : Limiter F) (done : Bool) (now : ℕ)
      → Slots l
      → (acquire fl l done now).1 ≡ none
      → ((acquire fl l done now).0.in_flight ≡ l.in_flight +ℤ pos 1)
        × (pos 0 ≤ℤ l.in_flight +ℤ pos 1)
        × (l.in_flight +ℤ pos 1 ≤ℤ l.max_in_flight)
  unfolding acquire
  acquire_takes_slot l done now v h =
      ground (arith, +ℤ_parts l.in_flight (pos 1), wrap64_in_range (l.in_flight +ℤ pos 1))

  -- A refused Acquire leaves the slots alone.
  pub acquire_refused :
      (l : Limiter F) (done : Bool) (now : ℕ) (e : Error)
      → (acquire fl l done now).1 ≡ some e
      → (acquire fl l done now).0.in_flight ≡ l.in_flight
  unfolding acquire
  acquire_refused l done now e h = ground (arith, refill_fields l now)

  acquire_limit :
      (l : Limiter F) (done : Bool) (now : ℕ)
      → (acquire fl l done now).0.max_in_flight ≡ l.max_in_flight
  unfolding acquire
  acquire_limit l done now = ground (arith, refill_fields l now)

  pub acquire-Slots :
      (l : Limiter F) (done : Bool) (now : ℕ) → Slots l → Slots (acquire fl l done now).0
  acquire-Slots l done now v = elim (Option-cases (acquire fl l done now).1) [
    | inl e ↦
        let t = acquire_takes_slot l done now v e in
        record {
          not_negative = rw t.0 t.1;
          within_limit = rw (t.0, acquire_limit l done now) t.2;
          limit_fits = rw (acquire_limit l done now) v.limit_fits;
        }
    | inr (x, e) ↦
        let same = acquire_refused l done now x e in
        record {
          not_negative = rw same v.not_negative;
          within_limit = rw (same, acquire_limit l done now) v.within_limit;
          limit_fits = rw (acquire_limit l done now) v.limit_fits;
        }
  ]

  acquire-Bucket :
      (l : Limiter F) (done : Bool) (now : ℕ) → Bucket l → Bucket (acquire fl l done now).0
  unfolding acquire
  acquire-Bucket l done now v =
      let r = refill_locked fl l now in
      let w = refill-Bucket l now v in
      let low = fl.sub_nonneg r.tokens (milli 1000) in
      let high = fl.lt_of_lt-sub r.burst r.tokens (milli 1000) (fl.lt_asym _ _ fl.zero_lt_one) in
      record {
        tokens_not_negative = ground (arith, w.tokens_not_negative, low);
        tokens_within_burst = ground (arith, w.tokens_within_burst, high);
        rate_not_negative = ground (arith, w.rate_not_negative);
        burst_not_negative = ground (arith, w.burst_not_negative);
      }

  -- Release gives back one slot, and does nothing if none is taken.
  pub release_slot_lem :
      (l : Limiter F)
      → Slots l
      → (release fl l).in_flight
        ≡ (if ltb_ℤ (pos 0) l.in_flight then l.in_flight -ℤ pos 1 else l.in_flight)
  unfolding release
  release_slot_lem l v =
      ground (arith, -ℤ_parts l.in_flight (pos 1), wrap64_in_range (l.in_flight -ℤ pos 1))

  pub release-Slots : (l : Limiter F) → Slots l → Slots (release fl l)
  unfolding release
  release-Slots l v =
      ground (arith, -ℤ_parts l.in_flight (pos 1), wrap64_in_range (l.in_flight -ℤ pos 1))

  release-Bucket : (l : Limiter F) → Bucket l → Bucket (release fl l)
  unfolding release
  release-Bucket l v = ground arith

  -- The calls of all goroutines, in the order in which they get the mutex.
  pub data Call : Type 0 where
    acquires : Bool → ℕ → Call
    releases : Call

  unfoldable pub step : Limiter F → Call → Limiter F
  step l (acquires done now) = (acquire fl l done now).0
  step l releases = release fl l

  unfoldable pub run : Limiter F → List Call → Limiter F
  run l [] = l
  run l (c ∷ cs) = run (step l c) cs

  step-Inv : (l : Limiter F) (c : Call) → Inv l → Inv (step l c)
  unfolding step
  step-Inv l (acquires done now) v = record {
    slots = acquire-Slots l done now v.slots;
    bucket = acquire-Bucket l done now v.bucket;
  }
  step-Inv l releases v = record {
    slots = release-Slots l v.slots;
    bucket = release-Bucket l v.bucket;
  }

  run-Inv : (cs : List Call) (l : Limiter F) → Inv l → Inv (run l cs)
  unfolding run
  run-Inv [] l v = v
  run-Inv (c ∷ cs) l v = run-Inv cs (step l c) (step-Inv l c v)

  new-Inv :
      (limit burst now : ℕ) (rate : F)
      → limit ≤ 0x7fff_ffff_ffff_ffff
      → lt rate (milli 0) ≡ false
      → Inv (new_limiter fl (pos limit) rate (pos burst) now)
  unfolding new_limiter
  new-Inv limit burst now rate h k = record {
    slots = record {
      not_negative = omega arith;
      within_limit = omega arith;
      limit_fits = omega arith;
    };
    bucket = record {
      tokens_not_negative = fl.of_int_nonneg burst;
      tokens_within_burst = lt_irrefl fl _;
      rate_not_negative = k;
      burst_not_negative = fl.of_int_nonneg burst;
    };
  }

  -- A limiter that is made with a limit and a burst that are not negative, the limit in an int64, and
  -- a rate that is not below 0, keeps after any calls at any times: between 0 and maxInFlight requests
  -- in flight, and a number of tokens that is not below 0 and not above burst.
  pub run_new-Inv :
      (limit burst now : ℕ) (rate : F) (cs : List Call)
      → limit ≤ 0x7fff_ffff_ffff_ffff
      → lt rate (milli 0) ≡ false
      → Inv (run (new_limiter fl (pos limit) rate (pos burst) now) cs)
  run_new-Inv limit burst now rate cs h k = run-Inv cs _ (new-Inv limit burst now rate h k)
