-- ===== src/Cli/Startup.antt =====
-- EnsureModelAvailable: the model and the routing that the chat starts with.
use mathlib.Core.List.{Mem, not-mem-nil, mem-cons_self, mem-cons_of_mem, Perm}
use mathlib.Core.List.Perm
use gpuswarm.Common.{
  ℕ, suc, zero, Bool, true, false, ◌&&◌, Option, none, some, str_eq, str_lt, Str, str, List, [],
  ◌∷◌, map, find, length, get_elem?, leb, if◌then◌else◌, Result, ok, err, ◌≡◌, refl, arith,
  Bool-cases, inl, inr,
}
use gpuswarm.Common.Int.{pos}
use gpuswarm.Common.Floats.{Float64}
use gpuswarm.Common.Members.{mem-map_of_mem}
use gpuswarm.Common.Sorting.{SortSlice}
use gpuswarm.Common.Maps.{MapRange}
use gpuswarm.Model.{CapabilityDocument}
use gpuswarm.Cli.{ModelChoice, Mesh, better_provider, best_provider_for_model}
use gpuswarm.Cli.Selection.{build_model_choices, ranked_providers}

module _ (fl : Float64) where
  open fl use {F, milli}

  -- bestProviderForModel, with the document without fields for no provider.
  unfoldable pub best_or_empty : List (CapabilityDocument F) → CapabilityDocument F
  best_or_empty ps = elim (best_provider_for_model fl ps) [
    | some p ↦ p
    | none ↦ record {
      peer_id = [];
      is_self = false;
      node_name = [];
      models = [];
      announce_addrs = [];
      gpu = [];
      vram_free_mb = pos 0;
      queue_depth = pos 0;
      avg_latency_ms = pos 0;
      reliability = milli 0;
      gateway_url = [];
      updated_at = 0;
    }
  ]

  -- The order of the choices by their best providers.
  unfoldable pub better_choice : ModelChoice F → ModelChoice F → Bool
  better_choice x y =
      let a = best_or_empty x.providers in
      let b = best_or_empty y.providers in
      if better_provider fl a b
      then true
      else if better_provider fl b a
      then false
      else str_lt x.name y.name

  module _ (sorting : SortSlice) where
    -- The choice that was found, or else the best choice.
    unfoldable pub or_best : List (ModelChoice F) → Option (ModelChoice F) → Option (ModelChoice F)
    or_best choices (some c) = some c
    or_best choices none = get_elem? (sorting.sort (ModelChoice F) better_choice choices) 0

    -- The choice that has the current model's name is looked for.
    unfoldable pub startup_choice : Str → List (ModelChoice F) → Option (ModelChoice F)
    startup_choice current choices = or_best choices (find (λ c. str_eq c.name current) choices)

    module _ (maps : MapRange) (mesh : Mesh) where
      -- setRouting "manual" and selectPeer, whose errors are ignored.
      unfoldable pub pin_quietly : mesh.M → Str → mesh.M
      pin_quietly m peer_id =
          let (m', e) = mesh.set_routing m (str "manual") in
          let (m'', e') = mesh.select_peer m' peer_id in m''

      -- The entry of the menu that is chosen, or `none` if the menu fails; entry 0 is [auto].
      unfoldable pub follow_menu : mesh.M → List (CapabilityDocument F) → Option ℕ → mesh.M
      follow_menu m ranked none = m
      follow_menu m ranked (some zero) = m
      follow_menu m ranked (some (suc i)) = elim (get_elem? ranked i) [
        | some p ↦ pin_quietly m p.peer_id
        | none ↦ m
      ]

      unfoldable pub start_with :
          Str → mesh.M → Bool → Option ℕ → Option (ModelChoice F) → Str × mesh.M
      start_with current m interactive entry none = (current, m)
      start_with current m interactive entry (some c) =
          if leb 2 (length c.providers) && interactive
          then (c.name, follow_menu m (ranked_providers fl sorting maps c.providers) entry)
          else (c.name, m)

      -- EnsureModelAvailable, which always returns nil.
      unfoldable pub ensure_model_available :
          Str → mesh.M → Result Str (List (CapabilityDocument F)) → Bool → Option ℕ → Str × mesh.M
      ensure_model_available current m (err e) interactive entry =
          let (m', x) = mesh.set_routing m (str "auto") in (current, m')
      ensure_model_available current m (ok peers) interactive entry =
          let (m', x) = mesh.set_routing m (str "auto") in
          start_with current m' interactive entry
            (startup_choice current (build_model_choices fl sorting maps peers))

  find-Mem : {A : Type 0} (test : A → Bool) (xs : List A) (x : A) → find test xs ≡ some x → Mem x xs
  find-Mem test [] x h = cc
  find-Mem test (y ∷ ys) x h = elim (Bool-cases (test y)) [
    | inl e ↦ let q : y ≡ x = ground arith in rw q mem-cons_self
    | inr e ↦
        let h' : find test ys ≡ some x = ground arith in mem-cons_of_mem y (find-Mem test ys x h')
  ]

  first-Mem :
      {A : Type 0} (xs ys : List A) (y : A)
      → Perm xs (y ∷ ys)
      → (x : A) × (get_elem? xs 0 ≡ some x) × Mem x (y ∷ ys)
  first-Mem [] ys y p = absurd (not-mem-nil ((Perm.mem_iff p).1 (mem-cons_self {a = y})))
  first-Mem (x ∷ xs) ys y p = (x, refl, (Perm.mem_iff p).0 mem-cons_self)

  module _ (sorting : SortSlice) where
    or_best-Mem :
        (c : ModelChoice F) (cs : List (ModelChoice F)) (o : Option (ModelChoice F))
        → ((d : ModelChoice F) → o ≡ some d → Mem d (c ∷ cs))
        → (d : ModelChoice F) × (or_best sorting (c ∷ cs) o ≡ some d) × Mem d (c ∷ cs)
    unfolding or_best
    or_best-Mem c cs none h =
        first-Mem _ cs c (sorting.sort_perm (ModelChoice F) better_choice (c ∷ cs))
    or_best-Mem c cs (some d) h = (d, refl, h d refl)

    startup_choice-Mem :
        (current : Str) (c : ModelChoice F) (cs : List (ModelChoice F))
        → (d : ModelChoice F) × (startup_choice sorting current (c ∷ cs) ≡ some d) × Mem d (c ∷ cs)
    unfolding startup_choice
    startup_choice-Mem current c cs =
        or_best-Mem c cs _ (find-Mem (λ x. str_eq x.name current) (c ∷ cs))

    module _ (maps : MapRange) (mesh : Mesh) where
      start_with-name :
          (current : Str) (m : mesh.M) (interactive : Bool) (entry : Option ℕ) (d : ModelChoice F)
          → (start_with sorting maps mesh current m interactive entry (some d)).0 ≡ d.name
      unfolding start_with
      start_with-name current m interactive entry d = ground arith

      -- If the fetched documents list a model at all, then the chat starts with a listed model,
      -- interactive or not, and whatever entry of the menu is chosen.
      ensure_model-Listed :
          (current : Str) (m : mesh.M) (peers : List (CapabilityDocument F)) (interactive : Bool)
          (entry : Option ℕ) (c : ModelChoice F) (cs : List (ModelChoice F))
          → build_model_choices fl sorting maps peers ≡ c ∷ cs
          → Mem
              (ensure_model_available sorting maps mesh current m (ok peers) interactive entry).0
              (map (λ d. d.name) (c ∷ cs))
      unfolding ensure_model_available
      ensure_model-Listed current m peers interactive entry c cs h =
          let (d, e, k) = startup_choice-Mem current c cs in
          rw h (
            rw e (
              rw (start_with-name current _ interactive entry d)
                (mem-map_of_mem (λ x. x.name) d (c ∷ cs) k)))
