-- ===== src/Cli/Choices.antt =====
-- Whom the chat lists under a model.
use mathlib.Core.List.Perm
use mathlib.Core.HLevel.{×_prop}
use gpuswarm.Common.{
  Bool, true, false, Str, str_eq, str_eq_refl, is_empty, trim_space, List, [], ◌∷◌, ◌++◌, map, any,
  All, All-append, if◌then◌else◌, ◌≡◌, refl, Bool-cases, Option-cases, inl, inr,
}
use gpuswarm.Common.Floats.{Float64}
use gpuswarm.Common.Members.{All-perm, All-of_mem, any-mem, true-prop}
use gpuswarm.Common.Sorting.{SortSlice}
use gpuswarm.Common.Maps.{GoMap, MapRange, lookup, insert-All, lookup-All}
use gpuswarm.Model.{CapabilityDocument, ModelSpec}
use gpuswarm.Cli.{ModelChoice, add_provider, add_models, by_model, lower_name, choice_of}
use gpuswarm.Cli.Selection.{build_model_choices}

All-prop :
    {A : Type 0} (P : A → Type 0) → ((x : A) → IsProp (P x)) → (xs : List A) → IsProp (All P xs)
All-prop P h [] = hlevel
All-prop P h (x ∷ xs) = ×_prop (h x) (All-prop P h xs)

module _ (fl : Float64) where
  open fl use {F}

  -- Some model of the document has the name, but for space around it.
  abbrev pub lists_model : Str → CapabilityDocument F → Bool
  lists_model name p = any (λ s. str_eq (trim_space s.name) name) p.models

  -- A provider of the model that is another node.
  pub record Provides (name : Str) (p : CapabilityDocument F) : Type 0 where
    pub other : p.is_self ≡ false
    pub lists : lists_model name p ≡ true

  Good : Str → CapabilityDocument F → Type 0
  Good name p = (p.is_self ≡ false) × (lists_model name p ≡ true)

  Entry : Str × List (CapabilityDocument F) → Type 0
  unfolding Good
  Entry (k, ps) = All (Good k) ps

  Entry-prop : (e : Str × List (CapabilityDocument F)) → IsProp (Entry e)
  unfolding Entry Good
  Entry-prop (k, ps) = All-prop (Good k) (λ p. ×_prop (true-prop _ _) (true-prop _ _)) ps

  add_provider-All :
      (m : GoMap (List (CapabilityDocument F))) (name : Str) (p : CapabilityDocument F)
      → Good name p
      → All Entry m
      → All Entry (add_provider fl m name p)
  unfolding add_provider Entry
  add_provider-All m name p g h = elim (Option-cases (lookup name m)) [
    | inl e ↦ rw (e, add_provider) (insert-All Entry name (p ∷ []) m (g, tt) h)
    | inr (ps, e) ↦
        rw (e, add_provider)
          (insert-All Entry name (ps ++ (p ∷ [])) m
            (All-append (Good name) ps (p ∷ []) (lookup-All Entry name ps m e h) (g, tt)) h)
  ]

  add_models-All :
      (specs : List ModelSpec) (m : GoMap (List (CapabilityDocument F))) (p : CapabilityDocument F)
      → All (λ s. Good (trim_space s.name) p) specs
      → All Entry m
      → All Entry (add_models fl m p specs)
  unfolding add_models
  add_models-All [] m p g h = h
  add_models-All (s ∷ specs) m p g h = elim (Bool-cases (is_empty (trim_space s.name))) [
    | inl e ↦ rw e (add_models-All specs m p g.1 h)
    | inr e ↦ rw e (add_models-All specs _ p g.1 (add_provider-All m (trim_space s.name) p g.0 h))
  ]

  own_models :
      (p : CapabilityDocument F)
      → p.is_self ≡ false
      → All (λ s. Good (trim_space s.name) p) p.models
  unfolding Good
  own_models p h = All-of_mem _ p.models (λ s m. (
    h,
    any-mem (λ t. str_eq (trim_space t.name) (trim_space s.name)) s p.models m (str_eq_refl _),
  ))

  either-All :
      (b : Bool) (m x : GoMap (List (CapabilityDocument F)))
      → All Entry m
      → (b ≡ false → All Entry x)
      → All Entry (if b then m else x)
  either-All true m x h f = h
  either-All false m x h f = f refl

  by_model-All :
      (peers : List (CapabilityDocument F)) (m : GoMap (List (CapabilityDocument F)))
      → All Entry m
      → All Entry (by_model fl m peers)
  unfolding by_model
  by_model-All [] m h = h
  by_model-All (p ∷ peers) m h =
      by_model-All peers _
        (either-All p.is_self m _ h (λ e. add_models-All p.models m p (own_models p e) h))

  Provides-All :
      (name : Str) (ps : List (CapabilityDocument F)) → All (Good name) ps → All (Provides name) ps
  unfolding Good
  Provides-All name [] h = tt
  Provides-All name (p ∷ ps) h = (record { other = h.0.0; lists = h.0.1 }, Provides-All name ps h.1)

  Provides-Good :
      (name : Str) (ps : List (CapabilityDocument F)) → All (Provides name) ps → All (Good name) ps
  unfolding Good
  Provides-Good name [] h = tt
  Provides-Good name (p ∷ ps) h = ((h.0.other, h.0.lists), Provides-Good name ps h.1)

  map-All :
      (es : List (Str × List (CapabilityDocument F)))
      → All Entry es
      → All (λ c. All (Good c.name) c.providers) (map (choice_of fl) es)
  unfolding Entry choice_of
  map-All [] h = tt
  map-All ((k, ps) ∷ es) h = (h.0, map-All es h.1)

  choices-All :
      (cs : List (ModelChoice F))
      → All (λ c. All (Good c.name) c.providers) cs
      → All (λ c. All (Provides c.name) c.providers) cs
  choices-All [] h = tt
  choices-All (c ∷ cs) h = (Provides-All c.name c.providers h.0, choices-All cs h.1)

  -- Under each model the chat lists other nodes only, and each of them offers the model.
  pub build_model_choices-All :
      (sorting : SortSlice) (maps : MapRange) (peers : List (CapabilityDocument F))
      → All (λ c. All (Provides c.name) c.providers) (build_model_choices fl sorting maps peers)
  unfolding build_model_choices Good
  build_model_choices-All sorting maps peers = choices-All _ (
      All-perm (λ c. All (Good c.name) c.providers)
        (λ c. All-prop (Good c.name) (λ p. ×_prop (true-prop _ _) (true-prop _ _)) c.providers)
        (Perm.symm (sorting.sort_perm (ModelChoice F) (lower_name fl) _))
        (map-All _ (
          All-perm Entry Entry-prop
            (Perm.symm (maps.range_perm (List (CapabilityDocument F)) (by_model fl [] peers)))
            (by_model-All peers [] tt))))
