-- ===== src/App/Capability/Outcomes.antt =====
-- The published reliability is the share of successes.
use native.Mathlib.Nat.{add-zero}
use gpuswarm.Common.{ℕ, ◌+◌, ◌≤◌, suc, Bool, true, false, List, [], ◌∷◌, ◌≡◌, refl, arith, length}
use gpuswarm.Common.Int.{pos, ◌+ℤ◌, wrap64}
use gpuswarm.Common.Floats.{Float64}
use gpuswarm.Model.{CapabilityDocument}
use gpuswarm.App.Capability.{CapabilityState, new_capability_state, record_outcome}

abbrev pub count_true : List Bool → ℕ
count_true [] = 0
count_true (true ∷ bs) = suc (count_true bs)
count_true (false ∷ bs) = count_true bs

abbrev pub count_false : List Bool → ℕ
count_false [] = 0
count_false (true ∷ bs) = count_false bs
count_false (false ∷ bs) = suc (count_false bs)

wrapped_sum : (a b : ℕ) → a + b ≤ 0x7fff_ffff_ffff_ffff → wrap64 (pos a +ℤ pos b) ≡ pos (a + b)
unfolding wrap64 ◌+ℤ◌
wrapped_sum a b h = ground arith

one-add : (n : ℕ) → 1 + n ≡ suc n
one-add n = omega arith

zero-add : {n : ℕ} → 0 + n ≡ n
zero-add = omega arith

shift : (a b : ℕ) → a + suc b ≡ a + 1 + b
shift a b = omega arith

module _ (fl : Float64) where
  open fl use {F, div, of_int}

  -- The outcomes of requests, in the order in which they get the mutex, all at the time `now`.
  unfoldable pub run : CapabilityState F → List Bool → ℕ → CapabilityState F
  run s [] now = s
  run s (b ∷ bs) now = run (record_outcome fl s b now) bs now

  pub record Counts (s : CapabilityState F) (good bad : ℕ) : Type 0 where
    pub successes : s.successes ≡ pos good
    pub failures : s.failures ≡ pos bad

  pub record Share (s : CapabilityState F) (good bad : ℕ) : Type 0 where
    pub counts : Counts s good bad
    pub share : s.doc.reliability ≡ div (of_int (pos good)) (of_int (pos (good + bad)))

  success-Share :
      (s : CapabilityState F) (now good bad : ℕ)
      → Counts s good bad
      → good + bad + 1 ≤ 0x7fff_ffff_ffff_ffff
      → Share (record_outcome fl s true now) (good + 1) bad
  unfolding record_outcome
  success-Share s now good bad c h =
      let a : wrap64 (s.successes +ℤ pos 1) ≡ pos (good + 1) =
        rw c.successes (wrapped_sum good 1 (omega arith)) in
      let b : wrap64 (pos (good + 1) +ℤ s.failures) ≡ pos (good + 1 + bad) =
        rw c.failures (wrapped_sum (good + 1) bad (omega arith)) in
      record {
        counts = record { successes = a; failures = c.failures };
        share = rw (a, b) (ground arith);
      }

  failure-Share :
      (s : CapabilityState F) (now good bad : ℕ)
      → Counts s good bad
      → good + bad + 1 ≤ 0x7fff_ffff_ffff_ffff
      → Share (record_outcome fl s false now) good (bad + 1)
  unfolding record_outcome
  failure-Share s now good bad c h =
      let a : wrap64 (s.failures +ℤ pos 1) ≡ pos (bad + 1) =
        rw c.failures (wrapped_sum bad 1 (omega arith)) in
      let b : wrap64 (s.successes +ℤ pos (bad + 1)) ≡ pos (good + (bad + 1)) =
        rw c.successes (wrapped_sum good (bad + 1) (omega arith)) in
      record {
        counts = record { successes = c.successes; failures = a };
        share = rw (a, b, c.successes) (ground arith);
      }

  run-Share :
      (bs : List Bool) (s : CapabilityState F) (now good bad : ℕ)
      → Share s good bad
      → good + bad + length bs ≤ 0x7fff_ffff_ffff_ffff
      → Share (run s bs now) (good + count_true bs) (bad + count_false bs)
  unfolding run
  run-Share [] s now good bad v h = rw (add-zero good, add-zero bad) v
  run-Share (true ∷ bs) s now good bad v h = rw (shift good (count_true bs)) (
      run-Share bs _ now (good + 1) bad (success-Share s now good bad v.counts (omega arith))
        (omega arith))
  run-Share (false ∷ bs) s now good bad v h = rw (shift bad (count_false bs)) (
      run-Share bs _ now good (bad + 1) (failure-Share s now good bad v.counts (omega arith))
        (omega arith))

  first-Share :
      (doc : CapabilityDocument F) (b : Bool) (now : ℕ)
      → Share
          (record_outcome fl (new_capability_state fl doc now) b now)
          (count_true (b ∷ []))
          (count_false (b ∷ []))
  unfolding new_capability_state
  first-Share doc true now =
      success-Share _ now 0 0 (record { successes = refl; failures = refl }) (omega arith)
  first-Share doc false now =
      failure-Share _ now 0 0 (record { successes = refl; failures = refl }) (omega arith)

  -- After any sequence of outcomes, one at least, a new state publishes the number of successes
  -- divided by the number of outcomes, provided that the number fits in an int64.
  pub run_new-Share :
      (doc : CapabilityDocument F) (b : Bool) (bs : List Bool) (now : ℕ)
      → length (b ∷ bs) ≤ 0x7fff_ffff_ffff_ffff
      → Share
          (run (new_capability_state fl doc now) (b ∷ bs) now)
          (count_true (b ∷ bs))
          (count_false (b ∷ bs))
  unfolding run
  run_new-Share doc true bs now h =
      rw (one-add (count_true bs), zero-add {n = count_false bs}) at
        (run-Share bs _ now 1 0 (first-Share doc true now) (omega arith))
  run_new-Share doc false bs now h =
      rw (one-add (count_false bs), zero-add {n = count_true bs}) at
        (run-Share bs _ now 0 1 (first-Share doc false now) (omega arith))
