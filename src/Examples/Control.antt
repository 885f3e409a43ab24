-- ===== src/Examples/Control.antt =====
-- The model, the ledger, the tracker, the limiter, the policy and proof of work on concrete inputs.
use gpuswarm.Common.{
  ◌↔◌, Str, ◌≡◌, ◌<◌, ◌+◌, ◌-◌, ◌%◌, true, false, str, [], ◌∷◌, List, refl, arith,
}
use gpuswarm.Common.Int.{pos, negsuc}
use gpuswarm.Common.Floats.{thousandths}
use gpuswarm.Model.{supports_requirements}
use gpuswarm.Model.Supports.{Offers, supports_requirements_iff}
use gpuswarm.Control.Credits
use gpuswarm.Control.Reputation
use gpuswarm.Control.Limiter.{new_limiter}
use gpuswarm.Control.Limiter.Bounds
use gpuswarm.Control.Policy.{ProviderPolicy, within_window}
use gpuswarm.Control.Policy.Windows.{window_length, within_window_iff}
use gpuswarm.Control.Pow.{solve_pow, validate_pow, pow_hash}
use gpuswarm.Control.Pow.Search.{Least, zero_run, solve_pow-Least, validate_pow_iff}
use gpuswarm.Examples.{same_text, milli, fast, any_backend}

supports_requirements_iff_example :
    (supports_requirements fast (str "llama3") any_backend ≡ true)
    ↔ Offers (str "llama3") any_backend fast.models
supports_requirements_iff_example = supports_requirements_iff fast (str "llama3") any_backend

abbrev ledger : Credits.CreditLedger
ledger = record { balance = pos 3 }

abbrev ledger_calls : List Credits.Call
ledger_calls = Credits.spends (pos 2) ∷ Credits.spends (pos 2) ∷ Credits.earns (pos 5) ∷ []

ledger-HasRoom : Credits.HasRoom ledger (Credits.earned ledger_calls)
unfolding Credits.earned Credits.earned_by
ledger-HasRoom = record { funded = omega arith; fits = omega arith }

run-Accounts_example :
    Credits.Accounts ledger
      (Credits.run ledger ledger_calls)
      (Credits.earned ledger_calls)
      (Credits.spent ledger ledger_calls)
run-Accounts_example = Credits.run-Accounts ledger_calls ledger ledger-HasRoom

abbrev tracker_calls : List (Reputation.Call thousandths)
tracker_calls =
    Reputation.penalizes (str "a") (milli 700) ∷ Reputation.rewards (str "b") (milli 20) ∷ []

run_new-InBounds_example :
    Reputation.InBounds thousandths
      (Reputation.run thousandths (Reputation.new_reputation_tracker thousandths) tracker_calls)
run_new-InBounds_example = Reputation.run_new-InBounds thousandths tracker_calls

abbrev limiter_calls : List (Bounds.Call thousandths)
limiter_calls = Bounds.acquires false 5 ∷ Bounds.acquires false 6 ∷ Bounds.releases ∷ []

rate_not_negative : thousandths.lt (milli 2000) (milli 0) ≡ false
unfolding thousandths
rate_not_negative = refl

run_new-Inv_example :
    Bounds.Inv thousandths (
      Bounds.run thousandths (new_limiter thousandths (pos 1) (milli 2000) (pos 4) 0) limiter_calls)
run_new-Inv_example =
    Bounds.run_new-Inv thousandths 1 4 0 (milli 2000) limiter_calls (omega arith) rate_not_negative

within_window_iff_example :
    (within_window (pos 2) (pos 22) (pos 6) ≡ true) ↔ ((2 + 24 - 22) % 24 < window_length 22 6)
within_window_iff_example = within_window_iff 2 22 6 (omega arith) (omega arith) (omega arith)

solve_pow-Least_example :
    Least same_text
      (str "00client")
      (str "llama3")
      (pos 2)
      0
      10
      (solve_pow same_text (str "00client") (str "llama3") (pos 2) 10)
solve_pow-Least_example = solve_pow-Least same_text (str "00client") (str "llama3") 1 10

validate_pow_iff_example :
    ((validate_pow same_text (str "00client") 7 (str "llama3") (pos 2) ≡ true)
      ↔ ((t : Str) × (pow_hash same_text (str "00client") 7 (str "llama3") ≡ zero_run 2 t)))
    × (validate_pow same_text (str "00client") 7 (str "llama3") (pos 0) ≡ true)
    × (validate_pow same_text (str "00client") 7 (str "llama3") (negsuc 1) ≡ true)
validate_pow_iff_example = validate_pow_iff same_text (str "00client") (str "llama3") 7 1

abbrev policy : ProviderPolicy thousandths.F
policy = record {
  max_tokens_per_request = pos 2048;
  night_only = true;
  night_start_hour = pos 22;
  night_end_hour = pos 6;
  idle_only = true;
  max_load1m = milli 1500;
  pow_difficulty = pos 2;
  min_peer_reputation = milli 200;
}
