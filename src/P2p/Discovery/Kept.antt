-- ===== src/P2p/Discovery/Kept.antt =====
-- What goes on to hold of the documents while ListCapabilities gathers them.
use gpuswarm.Common.{
  Bool, true, false, ◌||◌, not, Str, str_eq, is_empty, List, [], ◌∷◌, All, ok, ◌≡◌, Bool-cases,
  Result-cases, inl, inr,
}
use gpuswarm.Common.Maps.{GoMap, lookup, insert}
use gpuswarm.Model.{CapabilityDocument}
use gpuswarm.P2p.Host.{Host, AddrInfo, capability_result, registry_result, is_nobody}
use gpuswarm.P2p.Sources.{RetryAfter, should_query}
use gpuswarm.P2p.Discovery.{
  PeerSet, Search, with_gateway, take_heartbeat, take_heartbeats, take_entry, take_entries,
  take_registry, query_registry, query_registries, is_listed, take_answer, query_peer, query_peers,
}

module _ {F : Type 0} (host : Host F) where
  open host use {H, Addr, self, now, peers, ask_capability, ask_registry}

  -- What holds of the documents so far, and goes on to hold when a trusted one is taken under its ID.
  module _ (trusted : CapabilityDocument F → Bool) (I : GoMap (CapabilityDocument F) → Type 0)
      (taken : (c : CapabilityDocument F) (m : GoMap (CapabilityDocument F))
        → trusted c ≡ true
        → I m
        → I (insert c.peer_id c m)) where
    abbrev pub Trusted : List (CapabilityDocument F) → Type 0
    Trusted cs = All (λ c. trusted c ≡ true) cs

    pub take_heartbeats-Keeps :
        (hbs : List (CapabilityDocument F)) (q : Search host)
        → Trusted hbs
        → I q.caps
        → I (take_heartbeats host q hbs).caps
    unfolding take_heartbeats take_heartbeat
    take_heartbeats-Keeps [] q t i = i
    take_heartbeats-Keeps (hb ∷ hbs) q t i = take_heartbeats-Keeps hbs _ t.1 (taken hb q.caps t.0 i)

    pub take_entry-Keeps :
        (bp : AddrInfo Addr) (q : Search host) (c : CapabilityDocument F)
        → trusted c ≡ true
        → I q.caps
        → I (take_entry host bp q c).caps
    unfolding take_entry
    take_entry-Keeps bp q c t i = elim (Bool-cases (is_empty c.peer_id || str_eq c.peer_id self)) [
      | inl e ↦ rw e i
      | inr e ↦ rw e (taken c q.caps t i)
    ]

    take_entries-Keeps :
        (bp : AddrInfo Addr) (cs : List (CapabilityDocument F)) (q : Search host)
        → Trusted cs
        → I q.caps
        → I (take_entries host bp q cs).caps
    unfolding take_entries
    take_entries-Keeps bp [] q t i = i
    take_entries-Keeps bp (c ∷ cs) q t i =
        take_entries-Keeps bp cs _ t.1 (take_entry-Keeps bp q c t.0 i)

    module _
        (registries : (h : H) (id : Str) (cs : List (CapabilityDocument F))
          → registry_result (ask_registry h id).1 ≡ ok cs
          → Trusted cs)
        (answers : (h : H) (pid : Str) (c : CapabilityDocument F)
          → capability_result (ask_capability h pid).1 ≡ ok c
          → trusted (with_gateway pid c) ≡ true) where
      query_registry-Keeps :
          (bp : AddrInfo Addr) (q : Search host) (d : H × Bool)
          → I q.caps
          → I (query_registry host bp q d).caps
      unfolding query_registry take_registry
      query_registry-Keeps bp q (h, false) i = i
      query_registry-Keeps bp q (h, true) i =
          elim (Result-cases (registry_result (ask_registry h bp.id).1)) [
            | inl (cs, e) ↦ rw e (take_entries-Keeps bp cs _ (registries h bp.id cs e) i)
            | inr (x, e) ↦ rw e i
          ]

      pub query_registries-Keeps :
          (bps : List (AddrInfo Addr)) (q : Search host)
          → I q.caps
          → I (query_registries host q bps).caps
      unfolding query_registries
      query_registries-Keeps [] q i = i
      query_registries-Keeps (bp ∷ bps) q i = elim (Bool-cases (is_nobody host bp.id)) [
        | inl e ↦ rw e (query_registries-Keeps bps q i)
        | inr e ↦ rw e (query_registries-Keeps bps _ (query_registry-Keeps bp q _ i))
      ]

      pub query_peer-Keeps :
          (q : Search host) (r : RetryAfter) (pid : Str)
          → I q.caps
          → I (query_peer host q r pid).0.caps
      unfolding query_peer take_answer
      query_peer-Keeps q r pid i =
          elim (Bool-cases (is_listed (lookup pid q.caps) || not (should_query r pid (now q.h)))) [
            | inl e ↦ rw e i
            | inr e ↦ rw e (elim (Result-cases (capability_result (ask_capability q.h pid).1)) [
              | inl (c, a) ↦ rw a (taken (with_gateway pid c) q.caps (answers q.h pid c a) i)
              | inr (x, a) ↦ rw a i
            ])
          ]

      pub query_peers-Keeps :
          (pids : PeerSet) (q : Search host) (r : RetryAfter)
          → I q.caps
          → I (query_peers host q r pids).0.caps
      unfolding query_peers
      query_peers-Keeps [] q r i = i
      query_peers-Keeps ((pid, u) ∷ pids) q r i =
          query_peers-Keeps pids _ _ (query_peer-Keeps q r pid i)
