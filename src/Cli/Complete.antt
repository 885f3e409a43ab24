-- ===== src/Cli/Complete.antt =====
-- The chat lists every model that another node offers.
use mathlib.Core.List.{Mem, not-mem-nil, eq-or-mem_of_mem-cons}
use mathlib.Core.List.Perm
use mathlib.Core.Logic.Or
use gpuswarm.Common.{
  any-append, Bool, true, false, ◌&&◌, ◌||◌, Option, none, some, Str, str_eq, str_eq_iff,
  str_eq_refl, is_empty, trim_space, List, [], ◌∷◌, ◌++◌, any, All, if◌then◌else◌, ◌≡◌, refl, ◌∙◌,
  arith, Bool-cases, Option-cases, inl, inr,
}
use gpuswarm.Common.Floats.{Float64}
use gpuswarm.Common.Members.{any-mem, mem-map_of_mem, true-prop}
use gpuswarm.Common.Unique.{lookup-Mem}
use gpuswarm.Common.Sorting.{SortSlice}
use gpuswarm.Common.Maps.{GoMap, MapRange, lookup, lookup-insert}
use gpuswarm.Model.{CapabilityDocument, ModelSpec}
use gpuswarm.Cli.{ModelChoice, add_provider, add_models, by_model, lower_name, choice_of}
use gpuswarm.Cli.Selection.{build_model_choices}
use gpuswarm.Cli.Groups.{has_provider, build_model_choices-Full}
use gpuswarm.Cli.Choices.{Provides, build_model_choices-All}

module _ (fl : Float64) where
  open fl use {F}

  abbrev Grouped : Type 0
  Grouped = GoMap (List (CapabilityDocument F))

  -- A model's name and a peer.
  module _ (k : Str) (id : Str) where
    abbrev is_peer : CapabilityDocument F → Bool
    is_peer q = str_eq q.peer_id id

    abbrev among : Option (List (CapabilityDocument F)) → Bool
    among none = false
    among (some ps) = any is_peer ps

    -- The peer is in the group of the model.
    abbrev Listed : Grouped → Type 0
    Listed m = among (lookup k m) ≡ true

    among-append :
        (o : Option (List (CapabilityDocument F))) (p : CapabilityDocument F)
        → any is_peer ((elim o [ none ↦ [] | some ps ↦ ps ]) ++ (p ∷ [])) ≡ (among o || is_peer p)
    among-append none p = ground arith
    among-append (some ps) p = any-append is_peer ps (p ∷ []) ∙ ground arith

    lookup-add_provider :
        (m : Grouped) (name : Str) (p : CapabilityDocument F)
        → among (lookup k (add_provider fl m name p))
          ≡ (if str_eq name k then among (lookup name m) || is_peer p else among (lookup k m))
    unfolding add_provider
    lookup-add_provider m name p = elim (Bool-cases (str_eq name k)) [
      | inl e ↦ rw (lookup-insert name k _ m, e) (among-append (lookup name m) p)
      | inr e ↦ rw (lookup-insert name k _ m, e) refl
    ]

    add_provider-Listed :
        (m : Grouped) (name : Str) (p : CapabilityDocument F)
        → Listed m
        → Listed (add_provider fl m name p)
    add_provider-Listed m name p h = elim (Bool-cases (str_eq name k)) [
      | inl e ↦ rw (lookup-add_provider m name p, e, (str_eq_iff name k).0 e, h) refl
      | inr e ↦ rw (lookup-add_provider m name p, e) h
    ]

    add_provider-Listed_self :
        (m : Grouped) (p : CapabilityDocument F) → is_peer p ≡ true → Listed (add_provider fl m k p)
    add_provider-Listed_self m p h = rw (lookup-add_provider m k p, str_eq_refl k, h) (ground arith)

    add_models-Listed :
        (specs : List ModelSpec) (m : Grouped) (p : CapabilityDocument F)
        → Listed m
        → Listed (add_models fl m p specs)
    unfolding add_models
    add_models-Listed [] m p h = h
    add_models-Listed (s ∷ specs) m p h = elim (Bool-cases (is_empty (trim_space s.name))) [
      | inl e ↦ rw e (add_models-Listed specs m p h)
      | inr e ↦ rw e (add_models-Listed specs _ p (add_provider-Listed m (trim_space s.name) p h))
    ]

    add_models-Listed_self :
        (specs : List ModelSpec) (m : Grouped) (p : CapabilityDocument F) (s : ModelSpec)
        → Mem s specs
        → trim_space s.name ≡ k
        → is_empty k ≡ false
        → is_peer p ≡ true
        → Listed (add_models fl m p specs)
    unfolding add_models
    add_models-Listed_self [] m p s i e n h = absurd (not-mem-nil i)
    add_models-Listed_self (t ∷ specs) m p s i e n h =
        Or.elim (true-prop _ _) (eq-or-mem_of_mem-cons i)
          (λ q. rw (← q) (rw (e, n) (add_models-Listed specs _ p (add_provider-Listed_self m p h))))
          (λ r. add_models-Listed_self specs _ p s r e n h)

    either-Listed : (b : Bool) (m x : Grouped) → Listed m → Listed x → Listed (if b then m else x)
    either-Listed true m x h g = h
    either-Listed false m x h g = g

    other-Listed : (b : Bool) (m x : Grouped) → b ≡ false → Listed x → Listed (if b then m else x)
    other-Listed true m x e h = cc
    other-Listed false m x e h = h

    by_model-Listed :
        (peers : List (CapabilityDocument F)) (m : Grouped)
        → Listed m
        → Listed (by_model fl m peers)
    unfolding by_model
    by_model-Listed [] m h = h
    by_model-Listed (p ∷ peers) m h =
        by_model-Listed peers _ (either-Listed p.is_self m _ h (add_models-Listed p.models m p h))

    by_model-Listed_self :
        (peers : List (CapabilityDocument F)) (m : Grouped) (p : CapabilityDocument F)
        (s : ModelSpec)
        → Mem p peers
        → p.is_self ≡ false
        → Mem s p.models
        → trim_space s.name ≡ k
        → is_empty k ≡ false
        → is_peer p ≡ true
        → Listed (by_model fl m peers)
    unfolding by_model
    by_model-Listed_self [] m p s j o i e n h = absurd (not-mem-nil j)
    by_model-Listed_self (q ∷ peers) m p s j o i e n h =
        Or.elim (true-prop _ _) (eq-or-mem_of_mem-cons j)
          (λ c. rw (← c) (
            by_model-Listed peers _
              (other-Listed p.is_self m _ o (add_models-Listed_self p.models m p s i e n h))))
          (λ r. by_model-Listed_self peers _ p s r o i e n h)

    -- A choice for the model that has the peer among its providers.
    abbrev pub offers : ModelChoice F → Bool
    offers c = str_eq c.name k && any is_peer c.providers

    choices-any :
        (sorting : SortSlice) (maps : MapRange) (peers : List (CapabilityDocument F))
        → Listed (by_model fl [] peers)
        → any offers (build_model_choices fl sorting maps peers) ≡ true
    unfolding build_model_choices choice_of
    choices-any sorting maps peers h = elim (Option-cases (lookup k (by_model fl [] peers))) [
      | inl e ↦ let h' = rw e at h in cc h'
      | inr (ps, e) ↦
          let h' = rw e at h in
          any-mem offers (choice_of fl (k, ps)) _
            ((Perm.mem_iff (sorting.sort_perm (ModelChoice F) (lower_name fl) _)).1 (
              mem-map_of_mem (choice_of fl) (k, ps) _
                ((Perm.mem_iff
                    (maps.range_perm (List (CapabilityDocument F)) (by_model fl [] peers))).1
                  (lookup-Mem k ps _ e))))
            (rw (str_eq_refl k, h') refl)
    ]

  -- The chat lists exactly what other nodes offer: each model that it lists has a provider, all of its
  -- providers are other nodes that offer it, and of each other node every model is listed whose name is
  -- not blank, with the node among its providers.
  pub models_listed :
      (sorting : SortSlice) (maps : MapRange) (peers : List (CapabilityDocument F))
      → All (λ c. has_provider fl c.providers ≡ true) (build_model_choices fl sorting maps peers)
        × All
            (λ c. All (Provides fl c.name) c.providers)
            (build_model_choices fl sorting maps peers)
        × ((p : CapabilityDocument F) (s : ModelSpec)
            → Mem p peers
            → p.is_self ≡ false
            → Mem s p.models
            → is_empty (trim_space s.name) ≡ false
            → any (offers (trim_space s.name) p.peer_id) (build_model_choices fl sorting maps peers)
              ≡ true)
  models_listed sorting maps peers = (
    build_model_choices-Full fl sorting maps peers,
    build_model_choices-All fl sorting maps peers,
    λ p s j o i n. choices-any (trim_space s.name) p.peer_id sorting maps peers (
        by_model-Listed_self (trim_space s.name) p.peer_id peers [] p s j o i refl n
          (str_eq_refl p.peer_id)),
  )
