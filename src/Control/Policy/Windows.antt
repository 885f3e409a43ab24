-- ===== src/Control/Policy/Windows.antt =====
-- The serving window on the clock, and when a policy lets a request pass.
use gpuswarm.Common.{
  ℕ, ◌+◌, ◌-◌, ◌%◌, ◌<◌, true, false, not, Option, none, if◌then◌else◌, ◌≡◌, ◌≢◌, ◌↔◌, arith, ◌==◌,
  ◌⊎◌,
}
use gpuswarm.Common.Int.{ℤ, pos, ◌≤ℤ◌}
use gpuswarm.Common.Floats.{Float64}
use gpuswarm.Model.{ChatCompletionRequest}
use gpuswarm.Control.Policy.{ProviderPolicy, within_window, over_load, validate}

-- The hours that a window lasts; equal ends mean the whole day.
abbrev pub window_length : ℕ → ℕ → ℕ
window_length start end = if start == end then 24 else (end + 24 - start) % 24

-- For hours from 0 to 23: an hour is in the window exactly when the hours since its start, round the
-- clock, are fewer than the window lasts.
pub within_window_iff :
    (hour start end : ℕ)
    → hour < 24
    → start < 24
    → end < 24
    → (within_window (pos hour) (pos start) (pos end) ≡ true)
      ↔ ((hour + 24 - start) % 24 < window_length start end)
unfolding within_window
within_window_iff hour start end h s e = (λ t. ground arith, λ t. ground arith)

-- A window and the one with its ends swapped share no hour, and together make up the day.
pub within_window_swap :
    (hour start end : ℤ)
    → start ≢ end
    → within_window hour end start ≡ not (within_window hour start end)
unfolding within_window
within_window_swap hour start end h = ground arith

module _ (fl : Float64) where
  open fl use {F, lt, milli}

  -- A request passes exactly when it asks for no more tokens than the limit, if there is one; the
  -- hour is in the window, if the policy is for the night only; and the host is not over its load, if
  -- the policy is for idle hosts only.
  pub validate_passes_iff :
      (p : ProviderPolicy F) (req : ChatCompletionRequest) (hour : ℤ) (probe : Option (Option F))
      → (validate fl p req hour probe ≡ none) ↔ (
          ((p.max_tokens_per_request ≤ℤ pos 0) ⊎ (req.max_tokens ≤ℤ p.max_tokens_per_request))
          × ((p.night_only ≡ false)
              ⊎ (within_window hour p.night_start_hour p.night_end_hour ≡ true))
          × ((p.idle_only ≡ false)
              ⊎ (lt (milli 0) p.max_load1m ≡ false)
              ⊎ (over_load fl p.max_load1m probe ≡ false)))
  unfolding validate
  validate_passes_iff p req hour probe = (λ h. ground arith, λ h. ground arith)
