-- ===== src/Cli/Best.antt =====
-- The provider that the chat prefers.
use mathlib.Core.List.{Mem, mem-cons_self, mem-cons_of_mem, eq-or-mem_of_mem-cons}
use mathlib.Core.Logic.{◌⊎◌}
use mathlib.Core.Logic.{∥∥₁_prop}
use mathlib.Core.Logic.Or
use gpuswarm.Common.{
  Bool, true, false, none, some, List, [], ◌∷◌, All, if◌then◌else◌, ◌≡◌, refl, Bool-cases, inl, inr,
}
use gpuswarm.Common.Floats.{Float64}
use gpuswarm.Model.{CapabilityDocument}
use gpuswarm.Cli.Order.{Rated, better_provider-StrictWeak, better_provider-neg_trans, better_irrefl}
use gpuswarm.Cli.{better_provider, best_from, best_provider_for_model}

module _ (fl : Float64) where
  open fl use {F}

  either-Rated :
      (b : Bool) (p q : CapabilityDocument F)
      → Rated fl p
      → Rated fl q
      → Rated fl (if b then p else q)
  either-Rated true p q r s = r
  either-Rated false p q r s = s

  best_from-Rated :
      (ps : List (CapabilityDocument F)) (top : CapabilityDocument F)
      → Rated fl top
      → All (Rated fl) ps
      → Rated fl (best_from fl top ps)
  unfolding best_from
  best_from-Rated [] top r rs = r
  best_from-Rated (p ∷ ps) top r rs =
      best_from-Rated ps _ (either-Rated (better_provider fl p top) p top rs.0 r) rs.1

  -- Neither of two is better than the one that the loop goes on with.
  either_beaten :
      (p top : CapabilityDocument F) (b : Bool)
      → Rated fl p
      → Rated fl top
      → better_provider fl p top ≡ b
      → (better_provider fl top (if b then p else top) ≡ false)
        × (better_provider fl p (if b then p else top) ≡ false)
  either_beaten p top true r s e =
      ((better_provider-StrictWeak fl).asym p top r s e, better_irrefl fl p r)
  either_beaten p top false r s e = (better_irrefl fl top s, e)

  abbrev NoneBetter : CapabilityDocument F → List (CapabilityDocument F) → Type 0
  NoneBetter best ps = All (λ p. better_provider fl p best ≡ false) ps

  best_from-NoneBetter :
      (ps : List (CapabilityDocument F)) (top : CapabilityDocument F)
      → Rated fl top
      → All (Rated fl) ps
      → NoneBetter (best_from fl top ps) (top ∷ ps)
  unfolding best_from
  best_from-NoneBetter [] top r rs = (better_irrefl fl top r, tt)
  best_from-NoneBetter (p ∷ ps) top r rs =
      let next = if better_provider fl p top then p else top in
      let rated = either-Rated (better_provider fl p top) p top rs.0 r in
      let best_rated = best_from-Rated ps next rated rs.1 in
      let (old, new) = either_beaten p top (better_provider fl p top) rs.0 r refl in
      let (kept, later) = best_from-NoneBetter ps next rated rs.1 in
      (
        better_provider-neg_trans fl top next (best_from fl next ps) r rated best_rated old kept,
        (
          better_provider-neg_trans fl p next (best_from fl next ps) rs.0 rated best_rated new kept,
          later,
        ),
      )

  best_from-Mem :
      (ps : List (CapabilityDocument F)) (top : CapabilityDocument F)
      → Mem (best_from fl top ps) (top ∷ ps)
  unfolding best_from
  best_from-Mem [] top = mem-cons_self
  best_from-Mem (p ∷ ps) top = elim (Bool-cases (better_provider fl p top)) [
    | inl e ↦ rw e (mem-cons_of_mem top (best_from-Mem ps p))
    | inr e ↦ rw e (
        Or.elim ∥∥₁_prop (eq-or-mem_of_mem-cons (best_from-Mem ps top)) (λ q. rw q mem-cons_self)
          (λ m. mem-cons_of_mem top (mem-cons_of_mem p m)))
  ]

  -- Of providers whose reliability is a number, the chat's best is one of them, and none of them is
  -- better: more reliable, or as reliable with a shorter queue, or alike in both with a lower latency,
  -- or alike in all with an ID that comes first. There is a best one unless there is none at all.
  pub best_provider_best :
      (ps : List (CapabilityDocument F))
      → All (Rated fl) ps
      → ((ps ≡ []) × (best_provider_for_model fl ps ≡ none))
        ⊎ ((best : CapabilityDocument F) × ((best_provider_for_model fl ps ≡ some best)
              × (Mem best ps × All (λ p. better_provider fl p best ≡ false) ps)))
  unfolding best_provider_for_model
  best_provider_best [] r = inl (refl, refl)
  best_provider_best (p ∷ ps) r =
      inr (best_from fl p ps, (refl, (best_from-Mem ps p, best_from-NoneBetter ps p r.0 r.1)))
