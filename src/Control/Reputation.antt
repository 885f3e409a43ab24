-- ===== src/Control/Reputation.antt =====
-- internal/control/reputation.go: peer scores between floor and ceil. Each method holds the mutex.
use gpuswarm.Common.{
  false, none, some, ◌≡◌, refl, arith, if◌then◌else◌, Str, str_eq, Bool-cases, inl, inr, List, [],
  ◌∷◌,
}
use gpuswarm.Common.Floats.{Float64, lt_irrefl}
use gpuswarm.Common.Maps.{GoMap, lookup, insert, lookup-insert}

pub record ReputationTracker (F : Type 0) : Type 0 where
  pub scores : GoMap F
  pub floor : F
  pub ceil : F

module _ (fl : Float64) where
  open fl use {F, add, neg, lt, milli}

  unfoldable pub new_reputation_tracker : ReputationTracker F
  new_reputation_tracker = record { scores = []; floor = milli 0; ceil = milli 1000 }

  -- A peer that has no score yet counts as 1.0.
  unfoldable pub score : ReputationTracker F → Str → F
  score r peer_id = elim (lookup peer_id r.scores) [ none ↦ milli 1000 | some s ↦ s ]

  -- The two `if`s of adjust, in their order.
  unfoldable pub clamp : ReputationTracker F → F → F
  clamp r cur =
      let raised = if lt cur r.floor then r.floor else cur in
      if lt r.ceil raised then r.ceil else raised

  unfoldable pub adjust : ReputationTracker F → Str → F → ReputationTracker F
  adjust r peer_id delta = record r {
    scores = insert peer_id (clamp r (add (score r peer_id) delta)) r.scores;
  }

  unfoldable pub reward : ReputationTracker F → Str → F → ReputationTracker F
  reward r peer_id delta = adjust r peer_id delta

  unfoldable pub penalize : ReputationTracker F → Str → F → ReputationTracker F
  penalize r peer_id delta = adjust r peer_id (neg delta)

  -- The bounds are those of NewReputationTracker, and no score lies outside them.
  pub record InBounds (r : ReputationTracker F) : Type 0 where
    pub floor : r.floor ≡ milli 0
    pub ceil : r.ceil ≡ milli 1000
    pub not_below : (peer : Str) → lt (score r peer) r.floor ≡ false
    pub not_above : (peer : Str) → lt r.ceil (score r peer) ≡ false

  clamp_not_below :
      (r : ReputationTracker F) (x : F) → lt r.ceil r.floor ≡ false → lt (clamp r x) r.floor ≡ false
  unfolding clamp
  clamp_not_below r x h = ground (arith, lt_irrefl fl r.floor)

  clamp_not_above : (r : ReputationTracker F) (x : F) → lt r.ceil (clamp r x) ≡ false
  unfolding clamp
  clamp_not_above r x = ground (arith, lt_irrefl fl r.ceil)

  new-InBounds : InBounds new_reputation_tracker
  unfolding new_reputation_tracker score lookup
  new-InBounds = record {
    floor = refl;
    ceil = refl;
    not_below = λ peer. fl.lt_asym _ _ fl.zero_lt_one;
    not_above = λ peer. lt_irrefl fl _;
  }

  -- After an adjustment the peer has the clamped score, and every other peer the score it had.
  pub score-adjust :
      (r : ReputationTracker F) (peer other : Str) (delta : F)
      → score (adjust r peer delta) other
        ≡ (if str_eq peer other then clamp r (add (score r peer) delta) else score r other)
  unfolding score adjust
  score-adjust r peer other delta =
      ground (arith, lookup-insert peer other (clamp r (add (score r peer) delta)) r.scores)

  module _ (r : ReputationTracker F) (peer : Str) (delta : F) (v : InBounds r) where
    adjust_not_below : (other : Str) → lt (score (adjust r peer delta) other) r.floor ≡ false
    adjust_not_below other = elim (Bool-cases (str_eq peer other)) [
      | inl e ↦
          rw (score-adjust r peer other delta, e)
            (clamp_not_below r _ (rw (v.floor, v.ceil) (fl.lt_asym _ _ fl.zero_lt_one)))
      | inr e ↦ rw (score-adjust r peer other delta, e) (v.not_below other)
    ]

    adjust_not_above : (other : Str) → lt r.ceil (score (adjust r peer delta) other) ≡ false
    adjust_not_above other = elim (Bool-cases (str_eq peer other)) [
      | inl e ↦ rw (score-adjust r peer other delta, e) (clamp_not_above r _)
      | inr e ↦ rw (score-adjust r peer other delta, e) (v.not_above other)
    ]

    pub adjust-InBounds : InBounds (adjust r peer delta)
    unfolding adjust
    adjust-InBounds = record {
      floor = v.floor;
      ceil = v.ceil;
      not_below = adjust_not_below;
      not_above = adjust_not_above;
    }

  -- The calls that change a tracker.
  pub data Call : Type 0 where
    rewards penalizes : Str → F → Call

  unfoldable pub step : ReputationTracker F → Call → ReputationTracker F
  unfolding reward penalize
  step r (rewards peer delta) = reward r peer delta
  step r (penalizes peer delta) = penalize r peer delta

  unfoldable pub run : ReputationTracker F → List Call → ReputationTracker F
  run r [] = r
  run r (c ∷ cs) = run (step r c) cs

  step-InBounds : (r : ReputationTracker F) (c : Call) → InBounds r → InBounds (step r c)
  unfolding step
  step-InBounds r (rewards peer delta) v = adjust-InBounds r peer delta v
  step-InBounds r (penalizes peer delta) v = adjust-InBounds r peer (neg delta) v

  run-InBounds : (cs : List Call) (r : ReputationTracker F) → InBounds r → InBounds (run r cs)
  unfolding run
  run-InBounds [] r v = v
  run-InBounds (c ∷ cs) r v = run-InBounds cs (step r c) (step-InBounds r c v)

  -- Whatever rewards and penalties a new tracker is given, no score is below 0 or above 1, also for
  -- peers that were never seen and for amounts that are negative, infinite or NaN.
  pub run_new-InBounds : (cs : List Call) → InBounds (run new_reputation_tracker cs)
  run_new-InBounds cs = run-InBounds cs _ new-InBounds
