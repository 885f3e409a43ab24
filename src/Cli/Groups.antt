-- ===== src/Cli/Groups.antt =====
-- No group of providers in the chat is empty.
use mathlib.Core.List.Perm
use gpuswarm.Common.{
  Bool, true, false, Str, is_empty, trim_space, List, [], ◌∷◌, ◌++◌, All, if◌then◌else◌, ◌≡◌, refl,
  Bool-cases, inl, inr,
}
use gpuswarm.Common.Floats.{Float64}
use gpuswarm.Common.Members.{All-perm, map-All, true-prop}
use gpuswarm.Common.Sorting.{SortSlice}
use gpuswarm.Common.Maps.{GoMap, MapRange, insert-All}
use gpuswarm.Model.{CapabilityDocument, ModelSpec}
use gpuswarm.Cli.{ModelChoice, add_provider, add_models, by_model, lower_name, choice_of}
use gpuswarm.Cli.Selection.{build_model_choices}

module _ (fl : Float64) where
  open fl use {F}

  abbrev pub has_provider : List (CapabilityDocument F) → Bool
  has_provider [] = false
  has_provider (p ∷ ps) = true

  abbrev Full : Str × List (CapabilityDocument F) → Type 0
  Full (k, ps) = has_provider ps ≡ true

  has_provider-append :
      (ps : List (CapabilityDocument F)) (p : CapabilityDocument F)
      → has_provider (ps ++ (p ∷ [])) ≡ true
  has_provider-append [] p = refl
  has_provider-append (q ∷ ps) p = refl

  add_provider-Full :
      (m : GoMap (List (CapabilityDocument F))) (name : Str) (p : CapabilityDocument F)
      → All Full m
      → All Full (add_provider fl m name p)
  unfolding add_provider
  add_provider-Full m name p h = insert-All Full name _ m (has_provider-append _ p) h

  add_models-Full :
      (specs : List ModelSpec) (m : GoMap (List (CapabilityDocument F))) (p : CapabilityDocument F)
      → All Full m
      → All Full (add_models fl m p specs)
  unfolding add_models
  add_models-Full [] m p h = h
  add_models-Full (s ∷ specs) m p h = elim (Bool-cases (is_empty (trim_space s.name))) [
    | inl e ↦ rw e (add_models-Full specs m p h)
    | inr e ↦ rw e (add_models-Full specs _ p (add_provider-Full m (trim_space s.name) p h))
  ]

  either-Full :
      (b : Bool) (m x : GoMap (List (CapabilityDocument F)))
      → All Full m
      → All Full x
      → All Full (if b then m else x)
  either-Full true m x h g = h
  either-Full false m x h g = g

  by_model-Full :
      (peers : List (CapabilityDocument F)) (m : GoMap (List (CapabilityDocument F)))
      → All Full m
      → All Full (by_model fl m peers)
  unfolding by_model
  by_model-Full [] m h = h
  by_model-Full (p ∷ peers) m h =
      by_model-Full peers _ (either-Full p.is_self m _ h (add_models-Full p.models m p h))

  -- Each model that the chat lists has a provider.
  pub build_model_choices-Full :
      (sorting : SortSlice) (maps : MapRange) (peers : List (CapabilityDocument F))
      → All (λ c. has_provider c.providers ≡ true) (build_model_choices fl sorting maps peers)
  unfolding build_model_choices choice_of
  build_model_choices-Full sorting maps peers =
      All-perm (λ c. has_provider c.providers ≡ true) (λ c. true-prop _ _)
        (Perm.symm (sorting.sort_perm (ModelChoice F) (lower_name fl) _))
        (map-All Full (λ c. has_provider c.providers ≡ true) (choice_of fl) (λ e h. h) _
          (All-perm Full (λ e. true-prop _ _)
            (Perm.symm (maps.range_perm (List (CapabilityDocument F)) (by_model fl [] peers)))
            (by_model-Full peers [] tt)))
