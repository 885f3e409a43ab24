-- ===== src/P2p/Discovery/Listed.antt =====
-- What ListCapabilities lists: the documents that were gathered, each under its own ID, in order.
use mathlib.Core.List.Perm
use gpuswarm.Common.{
  Bool, true, Str, str_lt-asym, str_lt-neg_trans, List, [], ◌∷◌, All, ok, ◌≡◌, subst, arith,
}
use gpuswarm.Common.Int.{pos}
use gpuswarm.Common.Members.{All-perm, map-All, true-prop}
use gpuswarm.Common.Sorting.{SortSlice, SortedBy, StrictWeak}
use gpuswarm.Common.Maps.{GoMap, MapRange, insert, insert-All}
use gpuswarm.Model.{CapabilityDocument}
use gpuswarm.P2p.Host.{Host, AddrInfo, capability_result, registry_result, discover_peers}
use gpuswarm.P2p.Registry.{Node, heartbeats}
use gpuswarm.P2p.Sources.{RetryAfter}
use gpuswarm.P2p.Discovery.{
  Search, with_gateway, by_id, sorted_answer, query_peers, gather, documents_by_id,
  list_capabilities, connect_found, add_all,
}
use gpuswarm.P2p.Discovery.Kept.{take_heartbeats-Keeps, query_registries-Keeps, query_peers-Keeps}

module _ {F : Type 0} where
  by_id-StrictWeak : StrictWeak (λ (c : CapabilityDocument F). Unit {0}) by_id
  unfolding by_id
  by_id-StrictWeak = record {
    asym = λ a b p q. str_lt-asym a.peer_id b.peer_id;
    neg_trans = λ a b c p q r. str_lt-neg_trans a.peer_id b.peer_id c.peer_id;
  }

  All-Unit : (cs : List (CapabilityDocument F)) → All (λ c. Unit {0}) cs
  All-Unit [] = tt
  All-Unit (c ∷ cs) = (tt, All-Unit cs)

  abbrev pub ByTrusted : (CapabilityDocument F → Bool) → CapabilityDocument F → Type 0
  ByTrusted trusted c = trusted c ≡ true

  answered :
      (P : List (CapabilityDocument F) → Type 0) (cs out : List (CapabilityDocument F))
      → sorted_answer cs ≡ ok out
      → P cs
      → P out
  unfolding sorted_answer
  answered P [] out h p = cc
  answered P (c ∷ cs) out h p = subst P (ground arith) p

  module _ (host : Host F) (sorting : SortSlice) (maps : MapRange) where
    open host use {H, Addr, now, peers, ask_capability, ask_registry}

    -- The heartbeats that a call takes up.
    abbrev pub heard : Node F → H → Str → List (CapabilityDocument F)
    heard n h rendezvous =
        let (h1, found) = discover_peers host h rendezvous (pos 32) in
        (heartbeats maps n (now (connect_found host h1 (add_all (peers h) []) found).0)).1

    documents-All :
        (trusted : CapabilityDocument F → Bool) (caps : GoMap (CapabilityDocument F))
        → All (λ (k, c). trusted c ≡ true) caps
        → All (ByTrusted trusted) (documents_by_id sorting maps caps)
    unfolding documents_by_id
    documents-All trusted caps h =
        All-perm (ByTrusted trusted) (λ c. true-prop _ _)
          (Perm.symm (sorting.sort_perm (CapabilityDocument F) by_id _))
          (map-All (λ (k, c). trusted c ≡ true) (ByTrusted trusted) (λ (k, c). c) (λ (k, c) t. t) _
            (All-perm (λ (k, c). trusted c ≡ true) (λ (k, c). true-prop _ _)
              (Perm.symm (maps.range_perm (CapabilityDocument F) caps)) h))

    documents_sorted :
        (caps : GoMap (CapabilityDocument F)) → SortedBy by_id (documents_by_id sorting maps caps)
    unfolding documents_by_id
    documents_sorted caps =
        sorting.sort_sorted (CapabilityDocument F) (λ c. Unit {0}) by_id _ by_id-StrictWeak
          (All-Unit _)

    -- What a call has gathered at its end, and the times after it.
    abbrev pub searched :
        Node F → H → RetryAfter → Str → List (AddrInfo Addr) → Search host × RetryAfter
    searched n h r rendezvous bps =
        let (n', q) = gather host maps n h rendezvous bps in
        query_peers host q r (maps.range (Unit {0}) q.peer_set)

    pub searched-Keeps :
        (trusted : CapabilityDocument F → Bool) (I : GoMap (CapabilityDocument F) → Type 0)
        → ((c : CapabilityDocument F) (m : GoMap (CapabilityDocument F))
            → trusted c ≡ true
            → I m
            → I (insert c.peer_id c m))
        → (n : Node F) (h : H) (r : RetryAfter) (rendezvous : Str) (bps : List (AddrInfo Addr))
        → All (ByTrusted trusted) (heard n h rendezvous)
        → ((g : H) (id : Str) (cs : List (CapabilityDocument F))
            → registry_result (ask_registry g id).1 ≡ ok cs
            → All (ByTrusted trusted) cs)
        → ((g : H) (pid : Str) (c : CapabilityDocument F)
            → capability_result (ask_capability g pid).1 ≡ ok c
            → trusted (with_gateway pid c) ≡ true)
        → I []
        → I (searched n h r rendezvous bps).0.caps
    unfolding gather
    searched-Keeps trusted I taken n h r rendezvous bps hbs registries answers i =
        query_peers-Keeps host trusted I taken registries answers _ _ r (
          query_registries-Keeps host trusted I taken registries answers bps _
            (take_heartbeats-Keeps host trusted I taken _ _ hbs i))

    -- ListCapabilities lists documents in the order of their IDs. Each of them passes a test that every
    -- heartbeat passes, every document that a registry answers with, and every document that a peer
    -- answers with, once its gateway is filled in.
    pub list_capabilities-Trusted :
        (trusted : CapabilityDocument F → Bool) (n : Node F) (h : H) (r : RetryAfter)
        (rendezvous : Str) (bps : List (AddrInfo Addr)) (out : List (CapabilityDocument F))
        → All (ByTrusted trusted) (heard n h rendezvous)
        → ((g : H) (id : Str) (cs : List (CapabilityDocument F))
            → registry_result (ask_registry g id).1 ≡ ok cs
            → All (ByTrusted trusted) cs)
        → ((g : H) (pid : Str) (c : CapabilityDocument F)
            → capability_result (ask_capability g pid).1 ≡ ok c
            → trusted (with_gateway pid c) ≡ true)
        → (list_capabilities host maps sorting n h r rendezvous bps).1 ≡ ok out
        → All (ByTrusted trusted) out × SortedBy by_id out
    unfolding list_capabilities gather
    list_capabilities-Trusted trusted n h r rendezvous bps out hbs registries answers e =
        answered (λ cs. All (ByTrusted trusted) cs × SortedBy by_id cs) _ out e
          (
            documents-All trusted _ (
                searched-Keeps trusted (λ m. All (λ (k, c). trusted c ≡ true) m)
                  (λ c m t a. insert-All (λ (k, c). trusted c ≡ true) c.peer_id c m t a) n h r
                  rendezvous bps hbs registries answers tt),
            documents_sorted _,
          )
