-- ===== src/Cli/Selection.antt =====
-- selectModel and selectPeerByArg, and the commands that lead to them.
use gpuswarm.Common.{
  ℕ, ◌-◌, ◌&&◌, Option, none, some, Str, str, str_eq, is_empty, trim_space, List, [], ◌∷◌, map,
  find, length, get_elem?, if◌then◌else◌, Result, ok, err,
}
use gpuswarm.Common.Int.{ℤ, pos, leb_ℤ, pos_part}
use gpuswarm.Common.Numbers.{atoi}
use gpuswarm.Common.Floats.{Float64}
use gpuswarm.Common.Sorting.{SortSlice}
use gpuswarm.Common.Maps.{MapRange}
use gpuswarm.Model.{CapabilityDocument, ModelSpec, supports_model}
use gpuswarm.Cli.{
  ModelChoice, Mesh, Pick, ProviderChoice, provider_choice, better_provider,
  best_provider_for_model, by_model, lower_name, choice_of, typed, arrows, keep, best, at,
}

module _ (fl : Float64) where
  open fl use {F}

  module _ (sorting : SortSlice) (maps : MapRange) where
    -- buildModelChoices, on the documents that were fetched.
    unfoldable pub build_model_choices : List (CapabilityDocument F) → List (ModelChoice F)
    build_model_choices peers =
        sorting.sort (ModelChoice F) (lower_name fl)
          (map (choice_of fl) (maps.range (List (CapabilityDocument F)) (by_model fl [] peers)))

    unfoldable pub ranked_providers : List (CapabilityDocument F) → List (CapabilityDocument F)
    ranked_providers ps = sorting.sort (CapabilityDocument F) (better_provider fl) ps

    module _ (mesh : Mesh) where
      -- setRouting "manual", and selectPeer if it succeeds.
      unfoldable pub pin : mesh.M → Str → mesh.M × Option Str
      pin m peer_id =
          let (m', e) = mesh.set_routing m (str "manual") in
          elim e [ some x ↦ (m', some x) | none ↦ mesh.select_peer m' peer_id ]

      unfoldable pub pin_found : mesh.M → Option (CapabilityDocument F) → mesh.M × Option Str
      pin_found m none = (m, none)
      pin_found m (some p) = pin m p.peer_id

      unfoldable pub follow_choice :
          mesh.M → List (CapabilityDocument F) → ProviderChoice → mesh.M × Option Str
      follow_choice m ranked keep = (m, none)
      follow_choice m ranked best = pin_found m (best_provider_for_model fl ranked)
      follow_choice m ranked (at i) = pin_found m (get_elem? ranked i)

      -- What selectModel does once the model is chosen.
      unfoldable pub choose_provider :
          mesh.M → List (CapabilityDocument F) → Pick → mesh.M × Option Str
      choose_provider m [] pick = (m, none)
      choose_provider m (p ∷ []) pick = pin m p.peer_id
      choose_provider m (p ∷ (q ∷ ps)) pick =
          let ranked = ranked_providers (p ∷ (q ∷ ps)) in
          follow_choice m ranked (provider_choice (length ranked) pick)

      -- The model that a word names, by its number in the list or by its name; `ok none` takes the
      -- word as it is.
      unfoldable pub numbered_model :
          List (ModelChoice F) → Option ℤ → Str → Result Str (Option (ModelChoice F))
      numbered_model choices none word = ok (find (λ c. str_eq c.name word) choices)
      numbered_model [] (some i) word = err (str "no models discovered")
      numbered_model (c ∷ cs) (some i) word =
          if leb_ℤ (pos 1) i && leb_ℤ i (pos (length (c ∷ cs)))
          then ok (get_elem? (c ∷ cs) (pos_part i - 1))
          else err (str "model index out of range")

      -- The chat's model and the client, after a model was named.
      unfoldable pub take_model :
          Str
          → mesh.M
          → Str
          → Pick
          → Result Str (Option (ModelChoice F))
          → Str × (mesh.M × Option Str)
      take_model current m word pick (err e) = (current, (m, some e))
      take_model current m word pick (ok none) = (word, (m, none))
      take_model current m word pick (ok (some c)) = (c.name, choose_provider m c.providers pick)

      -- selectModel
      unfoldable pub select_model :
          Str
          → mesh.M
          → Result Str (List (CapabilityDocument F))
          → Str
          → Pick
          → Str × (mesh.M × Option Str)
      select_model current m (err e) name_or_index pick = (current, (m, some e))
      select_model current m (ok peers) name_or_index pick =
          let word = trim_space name_or_index in
          take_model current m word pick
            (numbered_model (build_model_choices peers) (atoi word) word)

      -- The models of a peer whose name is not blank.
      unfoldable pub model_names : List ModelSpec → List Str
      model_names [] = []
      model_names (s ∷ specs) =
          let rest = model_names specs in
          if is_empty (trim_space s.name) then rest else trim_space s.name ∷ rest

      unfoldable pub typed_index : ℕ → Option ℤ → ℕ
      typed_index n none = 0
      typed_index n (some i) = if leb_ℤ (pos 1) i && leb_ℤ i (pos n) then pos_part i - 1 else 0

      -- The index of the model of a peer that has `n`.
      unfoldable pub model_index : ℕ → Pick → ℕ
      model_index n (arrows none) = 0
      model_index n (arrows (some i)) = i
      model_index n (typed []) = 0
      model_index n (typed (l ∷ ls)) =
          if is_empty (trim_space l) then 0 else typed_index n (atoi (trim_space l))

      unfoldable pub model_of : Str → List Str → Pick → Str
      model_of current [] pick = current
      model_of current (n ∷ []) pick = n
      model_of current (n ∷ (k ∷ ns)) pick =
          elim (get_elem? (n ∷ (k ∷ ns)) (model_index (length (n ∷ (k ∷ ns))) pick)) [
            | none ↦ current
            | some x ↦ x
          ]

      -- selectPeerAndModel
      unfoldable pub select_peer_and_model :
          Str → mesh.M → CapabilityDocument F → Pick → Str × (mesh.M × Option Str)
      select_peer_and_model current m doc pick =
          let (m', e) = mesh.select_peer m doc.peer_id in
          elim e [
            | some x ↦ (current, (m', some x))
            | none ↦ (model_of current (model_names doc.models) pick, (m', none))
          ]

      unfoldable pub select_found :
          Str → mesh.M → Option (CapabilityDocument F) → Str → Pick → Str × (mesh.M × Option Str)
      select_found current m none peer_arg pick = (current, mesh.select_peer m peer_arg)
      select_found current m (some p) peer_arg pick = select_peer_and_model current m p pick

      unfoldable pub select_numbered :
          Str → mesh.M → Option (CapabilityDocument F) → Pick → Str × (mesh.M × Option Str)
      select_numbered current m none pick = (current, (m, some (str "peer index out of range")))
      select_numbered current m (some p) pick = select_peer_and_model current m p pick

      unfoldable pub at_number : List (CapabilityDocument F) → ℤ → Option (CapabilityDocument F)
      at_number peers i =
          if leb_ℤ (pos 1) i && leb_ℤ i (pos (length peers))
          then get_elem? peers (pos_part i - 1)
          else none

      -- selectPeerByArg, for an argument that is a number (`some`) or not.
      unfoldable pub select_peer_as :
          Str
          → mesh.M
          → Result Str (List (CapabilityDocument F))
          → Option ℤ
          → Str
          → Pick
          → Str × (mesh.M × Option Str)
      select_peer_as current m (err e) (some i) arg pick = (current, (m, some e))
      select_peer_as current m (ok peers) (some i) arg pick =
          select_numbered current m (at_number peers i) pick
      select_peer_as current m (err e) none arg pick = (current, mesh.select_peer m arg)
      select_peer_as current m (ok peers) none arg pick =
          select_found current m (find (λ p. str_eq p.peer_id arg) peers) arg pick

      unfoldable pub select_peer_by_arg :
          Str
          → mesh.M
          → Result Str (List (CapabilityDocument F))
          → Str
          → Pick
          → Str × (mesh.M × Option Str)
      select_peer_by_arg current m fetched peer_arg pick =
          let arg = trim_space peer_arg in select_peer_as current m fetched (atoi arg) arg pick

  -- bestProviderForCurrentModel
  unfoldable pub serving : Str → List (CapabilityDocument F) → List (CapabilityDocument F)
  serving model [] = []
  serving model (p ∷ peers) =
      let rest = serving model peers in
      if p.is_self then rest else if supports_model p model then p ∷ rest else rest

  unfoldable pub best_provider_for_current_model :
      Str → List (CapabilityDocument F) → Option (CapabilityDocument F)
  best_provider_for_current_model model peers = best_provider_for_model fl (serving model peers)
