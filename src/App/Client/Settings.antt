-- ===== src/App/Client/Settings.antt =====
-- The routing settings: reading, updating and pinning a peer.
use gpuswarm.Common.{
  Bool, true, false, none, Str, str, str_eq_iff, is_empty, List, [], ◌∷◌, ◌≡◌, ◌≢◌, refl, arith,
  inl, inr, ◌⊎◌, All,
}
use gpuswarm.Common.Int.{pos}
use gpuswarm.Common.Floats.{Float64}
use gpuswarm.Common.Maps.{member}
use gpuswarm.Common.Sorting.{SortSlice}
use gpuswarm.Model.{CapabilityDocument, ChatCompletionRequest}
use gpuswarm.Routing.{PeerScore, rank_with_preferences, effective_policy}
use gpuswarm.Routing.Eligibility.{Eligible}
use gpuswarm.Routing.Ranking.{rank-Eligible}
use gpuswarm.App.Client.{
  ClientService, RoutingSettings, to_set, copy_slice, replaced, get_routing_settings,
  update_routing_settings, select_peer_manual,
}
use gpuswarm.App.Client.Inference.{preferences}

replaced-copy_slice : (xs : List Str) → replaced (copy_slice xs) xs ≡ xs
unfolding replaced copy_slice
replaced-copy_slice [] = refl
replaced-copy_slice (x ∷ xs) = refl

module _ {F : Type 0} where
  -- To send back the settings that were read changes nothing.
  pub update-get : (s : ClientService F) → update_routing_settings s (get_routing_settings s) ≡ s
  unfolding update_routing_settings get_routing_settings
  update-get s = ground (
    arith,
    replaced-copy_slice s.opts.favorite_peers,
    replaced-copy_slice s.opts.blocked_peers,
    replaced-copy_slice s.opts.allowed_peers,
  )

  -- An update keeps the policy that is not named and each list that is nil, and replaces the others.
  -- The TTL is another matter: a TTL of 0, as JSON gives to an update that names none, is stored.
  pub update_keeps_all_but_ttl :
      (s : ClientService F) (policy : Str)
      → let named : RoutingSettings = record {
        routing_policy = policy;
        favorite_peers = none;
        blocked_peers = none;
        allowed_peers = none;
        sticky_peer_ttl = pos 0;
      } in
        ((update_routing_settings s named).opts.favorite_peers ≡ s.opts.favorite_peers)
        × ((update_routing_settings s named).opts.blocked_peers ≡ s.opts.blocked_peers)
        × ((update_routing_settings s named).opts.allowed_peers ≡ s.opts.allowed_peers)
        × ((update_routing_settings s named).opts.sticky_peer_ttl ≡ pos 0)
  unfolding update_routing_settings
  update_keeps_all_but_ttl s policy = (refl, refl, refl, refl)

module _ (fl : Float64) (sorting : SortSlice) where
  open fl use {F}

  member_singleton : (x y : Str) → member x (y ∷ []) ≡ true → x ≡ y
  unfolding member
  member_singleton x y h = ground (arith, str_eq_iff y x)

  to_set_singleton : (x : Str) → is_empty x ≡ false → to_set (x ∷ []) ≡ x ∷ []
  unfolding to_set
  to_set_singleton x h = rw h refl

  manual_policy :
      (s : ClientService F) (id : Str)
      → effective_policy (preferences fl (select_peer_manual s id)) ≡ str "manual"
  unfolding effective_policy preferences select_peer_manual is_empty
  manual_policy s id = refl

  Eligible-pinned :
      (s : ClientService F) (id : Str) (req : ChatCompletionRequest) (has_fav : Bool)
      (p : CapabilityDocument F)
      → is_empty id ≡ false
      → Eligible req (preferences fl (select_peer_manual s id)) has_fav p
      → p.peer_id ≡ id
  Eligible-pinned s id req has_fav p h e = pinned e.allowed
    where
      only : (preferences fl (select_peer_manual s id)).allowed ≡ id ∷ []
      only = unfold preferences select_peer_manual in to_set_singleton id h

      pinned :
          (effective_policy (preferences fl (select_peer_manual s id)) ≢ str "manual")
            ⊎ ((preferences fl (select_peer_manual s id)).allowed ≡ [])
            ⊎ (member p.peer_id (preferences fl (select_peer_manual s id)).allowed ≡ true)
          → p.peer_id ≡ id
      pinned (inl n) = absurd (n (manual_policy s id))
      pinned (inr (inl n)) = cc only
      pinned (inr (inr m)) = member_singleton p.peer_id id (rw only at m)

  All-pinned :
      (s : ClientService F) (id : Str) (req : ChatCompletionRequest) (has_fav : Bool)
      → is_empty id ≡ false
      → (ss : List (PeerScore F))
      → All (λ c. Eligible req (preferences fl (select_peer_manual s id)) has_fav c.capability) ss
      → All (λ c. c.capability.peer_id ≡ id) ss
  All-pinned s id req has_fav h [] a = tt
  All-pinned s id req has_fav h (c ∷ cs) a =
      (Eligible-pinned s id req has_fav c.capability h a.0, All-pinned s id req has_fav h cs a.1)

  -- Once a peer with an ID that is not empty is pinned by SelectPeerManual, every ranking holds that
  -- peer alone.
  pub select_peer_manual_pins :
      (s : ClientService F) (id : Str) (caps : List (CapabilityDocument F))
      (req : ChatCompletionRequest)
      → is_empty id ≡ false
      → All
          (λ c. c.capability.peer_id ≡ id)
          (rank_with_preferences fl sorting s.router caps req
            (preferences fl (select_peer_manual s id)))
  select_peer_manual_pins s id caps req h =
      All-pinned s id req _ h _
        (rank-Eligible fl sorting s.router caps req (preferences fl (select_peer_manual s id)))
