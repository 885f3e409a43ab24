-- ===== src/Control/Policy.antt =====
-- internal/control/policy.go: what a provider serves, and when. The hour of the local clock and the
-- answer of the load probe are arguments.
pub mod Windows
use gpuswarm.Common.{
  ℕ, Bool, true, false, ◌&&◌, ◌||◌, not, Option, none, some, if◌then◌else◌, Str, List, [], ◌∷◌,
  Result, ok, err,
}
use gpuswarm.Common.Int.{ℤ, pos, leb_ℤ, ltb_ℤ, eqb_ℤ}
use gpuswarm.Common.Floats.{Float64}
use gpuswarm.Model.{ChatCompletionRequest}
use gpuswarm.Control.{Error, tokens_exceeded, outside_serving_window, host_busy}

pub record ProviderPolicy (F : Type 0) : Type 0 where
  pub max_tokens_per_request : ℤ
  pub night_only : Bool
  pub night_start_hour : ℤ
  pub night_end_hour : ℤ
  pub idle_only : Bool
  pub max_load1m : F
  pub pow_difficulty : ℤ
  pub min_peer_reputation : F

unfoldable pub within_window : ℤ → ℤ → ℤ → Bool
within_window hour start end =
    if eqb_ℤ start end
    then true
    else if ltb_ℤ start end
    then leb_ℤ start hour && ltb_ℤ hour end
    else leb_ℤ start hour || ltb_ℤ hour end

module _ (fl : Float64) where
  open fl use {F, lt, milli}

  -- The load that a probe reports is above the limit; a probe that is nil or fails is not.
  unfoldable pub over_load : F → Option (Option F) → Bool
  over_load limit none = false
  over_load limit (some none) = false
  over_load limit (some (some load)) = lt limit load

  -- `none` is Go's nil error.
  unfoldable pub validate :
      ProviderPolicy F → ChatCompletionRequest → ℤ → Option (Option F) → Option Error
  validate p req hour probe =
      if ltb_ℤ (pos 0) p.max_tokens_per_request && ltb_ℤ p.max_tokens_per_request req.max_tokens
      then some tokens_exceeded
      else if p.night_only && not (within_window hour p.night_start_hour p.night_end_hour)
      then some outside_serving_window
      else if p.idle_only && lt (milli 0) p.max_load1m && over_load p.max_load1m probe
      then some host_busy
      else none
