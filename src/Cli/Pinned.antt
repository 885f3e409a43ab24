-- ===== src/Cli/Pinned.antt =====
-- Where the requests go after a model was chosen in the chat.
use mathlib.Core.List.{Mem, mem-cons_self, mem-cons_of_mem}
use mathlib.Core.List.Perm
use gpuswarm.Common.{
  ℕ, suc, zero, Bool, true, false, Option, none, some, not, ◌&&◌, ◌||◌, leb, length, Result, ok,
  err, str_eq, str_eq_iff, Str, str, is_empty, trim_space, List, [], ◌∷◌, get_elem?, All,
  if◌then◌else◌, ◌≡◌, refl, ap, subst, sym, ◌∙◌, ◌⊎◌, arith, Bool-cases, inl, inr,
}
use gpuswarm.Common.Int.{pos}
use gpuswarm.Common.Floats.{Float64}
use gpuswarm.Common.Sorting.{SortSlice}
use gpuswarm.Common.Maps.{MapRange}
use gpuswarm.Common.Members.{All-mem, true-prop}
use gpuswarm.Model.{CapabilityDocument, ChatCompletionRequest}
use gpuswarm.Routing.{rank_with_preferences}
use gpuswarm.App.Client.{ClientService, update_routing_settings, select_peer_manual}
use gpuswarm.App.Client.Inference.{preferences}
use gpuswarm.App.Client.Settings.{select_peer_manual_pins}
use gpuswarm.Cli.{
  Mesh, Pick, ProviderChoice, provider_choice, keep, best, at, better_provider, best_from,
  best_provider_for_model,
}
use gpuswarm.Cli.Selection.{ranked_providers, pin, pin_found, follow_choice, choose_provider}

-- The chat's requests to its daemon: the error of PUT /v1/mesh/routing, if any, and for the ID that
-- url.JoinPath puts at the end of a path, the ID that the server reads there, or the error. A request
-- that fails does not reach the server.
pub record Requests : Type 0 where
  pub put_routing : Str → Option Str
  pub post_select : Str → Result Str Str

abbrev is_letter_or_digit : ℕ → Bool
is_letter_or_digit c = (leb 48 c && leb c 57) || (leb 65 c && leb c 90) || (leb 97 c && leb c 122)

abbrev pub is_alphanumeric : Str → Bool
is_alphanumeric [] = true
is_alphanumeric (c ∷ s) = let rest = is_alphanumeric s in is_letter_or_digit c && rest

-- The requests arrive, and a path keeps a part of letters and digits as it is.
pub record Arrive (requests : Requests) : Type 0 where
  pub routing_set : requests.put_routing (str "manual") ≡ none
  pub id_kept : (id : Str) → is_alphanumeric id ≡ true → requests.post_select id ≡ ok id

module _ (fl : Float64) where
  open fl use {F}

  best_from-Mem :
      (ps : List (CapabilityDocument F)) (top : CapabilityDocument F)
      → Mem (best_from fl top ps) (top ∷ ps)
  unfolding best_from
  best_from-Mem [] top = mem-cons_self
  best_from-Mem (p ∷ ps) top = elim (Bool-cases (better_provider fl p top)) [
    | inl e ↦ rw e (mem-cons_of_mem top (best_from-Mem ps p))
    | inr e ↦ rw e (later (best_from-Mem ps top))
  ]
    where
      later : Mem (best_from fl top ps) (top ∷ ps) → Mem (best_from fl top ps) (top ∷ (p ∷ ps))
      later m = (Perm.mem_iff (Perm.swap top p ps)).0 (mem-cons_of_mem p m)

  get_elem?-Mem :
      (ps : List (CapabilityDocument F)) (i : ℕ) (p : CapabilityDocument F)
      → get_elem? ps i ≡ some p
      → Mem p ps
  get_elem?-Mem [] i p h = cc
  get_elem?-Mem (q ∷ qs) zero p h = let e : q ≡ p = ground arith in rw e mem-cons_self
  get_elem?-Mem (q ∷ qs) (suc i) p h = mem-cons_of_mem q (get_elem?-Mem qs i p h)

  best_provider-Mem :
      (ps : List (CapabilityDocument F)) (p : CapabilityDocument F)
      → best_provider_for_model fl ps ≡ some p
      → Mem p ps
  unfolding best_provider_for_model
  best_provider-Mem [] p h = cc
  best_provider-Mem (q ∷ qs) p h =
      let e : best_from fl q qs ≡ p = ground arith in
      subst (λ x. Mem x (q ∷ qs)) e (best_from-Mem qs q)

  module _ (sorting : SortSlice) (maps : MapRange) where
    ranked-Mem :
        (ps : List (CapabilityDocument F)) (p : CapabilityDocument F)
        → Mem p (ranked_providers fl sorting maps ps)
        → Mem p ps
    unfolding ranked_providers
    ranked-Mem ps p m =
        (Perm.mem_iff (sorting.sort_perm (CapabilityDocument F) (better_provider fl) ps)).0 m

    -- The provider that a choice names, if any.
    abbrev pub named_among :
        List (CapabilityDocument F) → ProviderChoice → Option (CapabilityDocument F)
    named_among ranked keep = none
    named_among ranked best = best_provider_for_model fl ranked
    named_among ranked (at i) = get_elem? ranked i

    -- The provider that is wanted: the only one, or the one that is named of several.
    abbrev pub named : List (CapabilityDocument F) → Pick → Option (CapabilityDocument F)
    named [] pick = none
    named (p ∷ []) pick = some p
    named (p ∷ (q ∷ ps)) pick =
        let ranked = ranked_providers fl sorting maps (p ∷ (q ∷ ps)) in
        named_among ranked (provider_choice (length ranked) pick)

    named_among-Mem :
        (ps : List (CapabilityDocument F)) (c : ProviderChoice) (p : CapabilityDocument F)
        → named_among (ranked_providers fl sorting maps ps) c ≡ some p
        → Mem p ps
    named_among-Mem ps keep p h = cc
    named_among-Mem ps best p h = ranked-Mem ps p (best_provider-Mem _ p h)
    named_among-Mem ps (at i) p h = ranked-Mem ps p (get_elem?-Mem _ i p h)

    pub named-Mem :
        (ps : List (CapabilityDocument F)) (pick : Pick) (p : CapabilityDocument F)
        → named ps pick ≡ some p
        → Mem p ps
    named-Mem [] pick p h = cc
    named-Mem (q ∷ []) pick p h = let e : q ≡ p = ground arith in rw e mem-cons_self
    named-Mem (q ∷ (r ∷ ps)) pick p h = named_among-Mem (q ∷ (r ∷ ps)) _ p h

    follow_choice-named :
        (mesh : Mesh) (m : mesh.M) (ranked : List (CapabilityDocument F)) (c : ProviderChoice)
        → follow_choice fl sorting maps mesh m ranked c
          ≡ pin_found fl sorting maps mesh m (named_among ranked c)
    unfolding follow_choice pin_found
    follow_choice-named mesh m ranked keep = refl
    follow_choice-named mesh m ranked best = refl
    follow_choice-named mesh m ranked (at i) = refl

    choose_provider-named :
        (mesh : Mesh) (m : mesh.M) (ps : List (CapabilityDocument F)) (pick : Pick)
        → choose_provider fl sorting maps mesh m ps pick
          ≡ pin_found fl sorting maps mesh m (named ps pick)
    unfolding choose_provider
    choose_provider-named mesh m [] pick = unfold pin_found in refl
    choose_provider-named mesh m (p ∷ []) pick = unfold pin_found in refl
    choose_provider-named mesh m (p ∷ (q ∷ ps)) pick = follow_choice-named mesh m _ _

  -- The API of a client service, with the checks of its handlers.
  unfoldable pub selected : ClientService F → Str → ClientService F × Option Str
  selected s id =
      if is_empty id then (s, some (str "peer id required")) else (select_peer_manual s id, none)

  -- POST /v1/mesh/select/…, with the ID that the server reads from the path.
  unfoldable pub selected_at : ClientService F → Result Str Str → ClientService F × Option Str
  selected_at s (err e) = (s, some e)
  selected_at s (ok id) = selected s (trim_space id)

  unfoldable pub routed : ClientService F → Str → Option Str → ClientService F × Option Str
  routed s policy (some e) = (s, some e)
  routed s policy none = (
    update_routing_settings s (record {
      routing_policy = policy;
      favorite_peers = none;
      blocked_peers = none;
      allowed_peers = none;
      sticky_peer_ttl = pos 0;
    }),
    none,
  )

  abbrev pub service_mesh : Requests → Mesh
  service_mesh requests = record {
    M = ClientService F;
    set_routing = λ s policy. routed s policy (requests.put_routing policy);
    select_peer = λ s id. selected_at s (requests.post_select id);
  }

  -- A peer ID of letters and digits, without space around it.
  abbrev pub tidy : CapabilityDocument F → Bool
  tidy p =
      not (is_empty p.peer_id)
      && str_eq (trim_space p.peer_id) p.peer_id
      && is_alphanumeric p.peer_id

  module _ (sorting : SortSlice) (maps : MapRange) where
    -- Every ranking of the service holds the peer alone.
    abbrev pub OnlyAsks : ClientService F → Str → Type 0
    OnlyAsks s id =
        (caps : List (CapabilityDocument F)) (req : ChatCompletionRequest)
        → All (λ c. c.capability.peer_id ≡ id)
            (rank_with_preferences fl sorting s.router caps req (preferences fl s))

    pinned-OnlyAsks :
        (s : ClientService F) (id : Str)
        → is_empty id ≡ false
        → OnlyAsks (select_peer_manual s id) id
    pinned-OnlyAsks s id h caps req =
        unfold select_peer_manual in select_peer_manual_pins fl sorting s id caps req h

    selected_tidy :
        (s : ClientService F) (id : Str)
        → is_empty id ≡ false
        → selected s id ≡ (select_peer_manual s id, none)
    unfolding selected
    selected_tidy s id h = rw h refl

    routed-none :
        (s : ClientService F) (policy : Str)
        → routed s policy none ≡ ((routed s policy none).0, none)
    unfolding routed
    routed-none s policy = refl

    selected_arrived :
        (s : ClientService F) (id : Str) → selected_at s (ok id) ≡ selected s (trim_space id)
    unfolding selected_at
    selected_arrived s id = refl

    abbrev after_routing :
        Requests → Str → ClientService F × Option Str → ClientService F × Option Str
    after_routing requests id (m, some x) = (m, some x)
    after_routing requests id (m, none) = selected_at m (requests.post_select id)

    pinned_lem :
        (requests : Requests) (s : ClientService F) (p : CapabilityDocument F)
        → Arrive requests
        → tidy p ≡ true
        → (pin fl sorting maps (service_mesh requests) s p.peer_id).0
          ≡ select_peer_manual (routed s (str "manual") none).0 p.peer_id
    unfolding pin
    pinned_lem requests s p a t =
        let n : is_empty p.peer_id ≡ false = ground arith in
        let w : is_alphanumeric p.peer_id ≡ true = ground arith in
        let e : trim_space p.peer_id ≡ p.peer_id =
          ground (arith, str_eq_iff (trim_space p.peer_id) p.peer_id) in
        ap (λ r. (after_routing requests p.peer_id r).0)
          (ap (routed s (str "manual")) a.routing_set ∙ routed-none s (str "manual"))
        ∙ ap (λ r. r.0)
            (ap (selected_at u) (a.id_kept p.peer_id w)
              ∙ (selected_arrived u p.peer_id ∙ (ap (selected u) e ∙ selected_tidy u p.peer_id n)))
      where
        u : ClientService F
        u = (routed s (str "manual") none).0

    pin-OnlyAsks :
        (requests : Requests) (s : ClientService F) (p : CapabilityDocument F)
        → Arrive requests
        → tidy p ≡ true
        → OnlyAsks (pin fl sorting maps (service_mesh requests) s p.peer_id).0 p.peer_id
    pin-OnlyAsks requests s p a t =
        subst (λ r. OnlyAsks r p.peer_id) (sym (pinned_lem requests s p a t))
          (pinned-OnlyAsks _ p.peer_id (ground arith))

    found-OnlyAsks :
        (requests : Requests) (s : ClientService F) (o : Option (CapabilityDocument F))
        → Arrive requests
        → ((p : CapabilityDocument F) → o ≡ some p → tidy p ≡ true)
        → let s' = (pin_found fl sorting maps (service_mesh requests) s o).0 in
          ((o ≡ none) × (s' ≡ s))
          ⊎ ((p : CapabilityDocument F) × (o ≡ some p) × OnlyAsks s' p.peer_id)
    unfolding pin_found
    found-OnlyAsks requests s none a t = inl (refl, refl)
    found-OnlyAsks requests s (some p) a t = inr (p, refl, pin-OnlyAsks requests s p a (t p refl))

    -- After a model with the given providers was chosen in the chat, and whatever is then typed: if no
    -- provider is named, the client is as it was, and if one is, every request goes to it and to no
    -- other peer; if the requests arrive, and the providers' IDs are of letters and digits.
    pub choose_provider-OnlyAsks :
        (requests : Requests) (s : ClientService F) (ps : List (CapabilityDocument F)) (pick : Pick)
        → Arrive requests
        → All (λ p. tidy p ≡ true) ps
        → let s' = (choose_provider fl sorting maps (service_mesh requests) s ps pick).0 in
          ((named sorting maps ps pick ≡ none) × (s' ≡ s))
          ⊎ ((p : CapabilityDocument F) × (named sorting maps ps pick ≡ some p)
              × OnlyAsks s' p.peer_id)
    choose_provider-OnlyAsks requests s ps pick a h =
        rw (choose_provider-named sorting maps (service_mesh requests) s ps pick) (
          found-OnlyAsks requests s (named sorting maps ps pick) a (λ p e.
            All-mem (λ q. tidy q ≡ true) (λ q. true-prop _ _) ps h p
              (named-Mem sorting maps ps pick p e)))
