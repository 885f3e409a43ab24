-- ===== src/P2p/Discovery.antt =====
-- internal/p2p/libp2p_discovery.go: Libp2pDiscovery.ListCapabilities, which gathers the documents of
-- the heartbeats, of the bootstrap peers' registries and of the peers themselves. What is logged is
-- left out, and no other call runs in between.
pub mod Kept
pub mod Listed
pub mod Unasked
pub mod Heard
use gpuswarm.Common.{
  ℕ, Bool, true, false, ◌&&◌, ◌||◌, not, Option, none, some, Str, str, str_eq, str_lt, is_empty,
  List, [], ◌∷◌, ◌++◌, map, ltb, length, if◌then◌else◌, Result, ok, err,
}
use gpuswarm.Common.Int.{ℤ, pos}
use gpuswarm.Common.Sorting.{SortSlice}
use gpuswarm.Common.Maps.{GoMap, MapRange, lookup, insert}
use gpuswarm.Model.{CapabilityDocument}
use gpuswarm.P2p.Host.{
  Host, AddrInfo, QueryError, minute, capability_result, registry_result, is_nobody, add_peer_addrs,
  discover_peers, dial,
}
use gpuswarm.P2p.Registry.{Node, heartbeats}
use gpuswarm.P2p.Sources.{
  RetryAfter, should_query, mark_query_failure, mark_query_success, prioritize_relay_addrs,
}

-- map[peer.ID]struct{}
abbrev pub PeerSet : Type 0
PeerSet = GoMap (Unit {0})

unfoldable pub add_peer : Str → PeerSet → PeerSet
add_peer pid s = insert pid tt s

unfoldable pub add_decoded_peer : Option Str → PeerSet → PeerSet
add_decoded_peer none s = s
add_decoded_peer (some pid) s = add_peer pid s

unfoldable pub add_all : List Str → PeerSet → PeerSet
add_all [] s = s
add_all (p ∷ ps) s = add_all ps (add_peer p s)

module _ {F : Type 0} where
  -- What a call has gathered: the host after it, the peers and their documents.
  pub record Search (host : Host F) : Type 0 where
    pub h : host.H
    pub peer_set : PeerSet
    pub caps : GoMap (CapabilityDocument F)

  unfoldable pub has_addrs : CapabilityDocument F → Bool
  has_addrs hb = not (is_empty hb.peer_id) && ltb 0 (length hb.announce_addrs)

  -- `if cap.GatewayURL == "" { … }`
  unfoldable pub with_gateway : Str → CapabilityDocument F → CapabilityDocument F
  with_gateway pid cap = record cap {
    gateway_url = if is_empty cap.gateway_url then str "libp2p://" ++ pid else cap.gateway_url;
  }

  unfoldable pub by_id : CapabilityDocument F → CapabilityDocument F → Bool
  by_id a b = str_lt a.peer_id b.peer_id

  unfoldable pub sorted_answer :
      List (CapabilityDocument F) → Result Str (List (CapabilityDocument F))
  sorted_answer [] = err (str "no peers discovered")
  sorted_answer (c ∷ out) = ok (c ∷ out)

  unfoldable pub is_listed : Option (CapabilityDocument F) → Bool
  is_listed none = false
  is_listed (some c) = true

  unfoldable pub documents_by_id :
      SortSlice → MapRange → GoMap (CapabilityDocument F) → List (CapabilityDocument F)
  documents_by_id sorting maps caps =
      sorting.sort (CapabilityDocument F) by_id
        (map (λ (k, c). c) (maps.range (CapabilityDocument F) caps))

  module _ (host : Host F) where
    open host use {
      H, Addr, new_multiaddr, decode, addr_text, encapsulate, self, now, peers, clear_addrs,
      ask_capability, ask_registry,
    }

    -- The loop over the peers that the DHT found.
    unfoldable pub connect_found : H → PeerSet → List (AddrInfo Addr) → H × PeerSet
    connect_found h s [] = (h, s)
    connect_found h s (ai ∷ found) =
        let skipped = connect_found h s found in
        let dialled = connect_found (dial host h ai minute).0 (add_peer ai.id s) found in
        if is_nobody host ai.id then skipped else dialled

    -- `if pid, err := peer.Decode(id); err == nil { ClearAddrs(pid) }`
    unfoldable pub clear_decoded : H → Option Str → H
    clear_decoded h none = h
    clear_decoded h (some pid) = clear_addrs h pid

    unfoldable pub clear_if : Bool → H → Str → H
    clear_if b h id = if b then clear_decoded h (decode id) else h

    -- The addresses that a heartbeat announces.
    unfoldable pub take_addrs : H → PeerSet → CapabilityDocument F → H × PeerSet
    take_addrs h s hb =
        let addrs = prioritize_relay_addrs hb.announce_addrs in
        let (h', added) =
          add_peer_addrs host
            (clear_if (ltb (length addrs) (length hb.announce_addrs)) h hb.peer_id) hb.peer_id addrs
            minute in
        (h', if ltb 0 added then add_decoded_peer (decode hb.peer_id) s else s)

    unfoldable pub take_heartbeat : Search host → CapabilityDocument F → Search host
    take_heartbeat q hb =
        let (h', s) = if has_addrs hb then take_addrs q.h q.peer_set hb else (q.h, q.peer_set) in
        record { h = h'; peer_set = s; caps = insert hb.peer_id hb q.caps }

    unfoldable pub take_heartbeats : Search host → List (CapabilityDocument F) → Search host
    take_heartbeats q [] = q
    take_heartbeats q (hb ∷ hbs) = take_heartbeats (take_heartbeat q hb) hbs

    -- synthesizeRelayAddrs: where the relay's circuit to the peer is an address.
    unfoldable pub relay_addr : Option Addr → Addr → List Str
    relay_addr none a = []
    relay_addr (some suffix) a = addr_text (encapsulate a suffix) ∷ []

    unfoldable pub synthesize : Option Addr → List Addr → List Str
    synthesize suffix [] = []
    synthesize suffix (a ∷ addrs) = relay_addr suffix a ++ synthesize suffix addrs

    unfoldable pub synthesize_relay_addrs : AddrInfo Addr → Str → List Str
    synthesize_relay_addrs relay target =
        synthesize
          (new_multiaddr (str "/p2p/" ++ (relay.id ++ (str "/p2p-circuit/p2p/" ++ target))))
          relay.addrs

    -- `if len(addrs) > 0 { AddPeerAddrs }`
    unfoldable pub add_some : H → Str → List Str → H
    add_some h id addrs =
        if ltb 0 (length addrs) then (add_peer_addrs host h id addrs minute).0 else h

    unfoldable pub take_entry : AddrInfo Addr → Search host → CapabilityDocument F → Search host
    take_entry bp q c =
        let relay_addrs = synthesize_relay_addrs bp c.peer_id in
        let cleared = clear_if (ltb 0 (length relay_addrs)) q.h c.peer_id in
        if is_empty c.peer_id || str_eq c.peer_id self then q else record {
          h =
              add_some (add_some cleared c.peer_id relay_addrs) c.peer_id
                (prioritize_relay_addrs c.announce_addrs);
          peer_set = add_decoded_peer (decode c.peer_id) q.peer_set;
          caps = insert c.peer_id c q.caps;
        }

    unfoldable pub take_entries :
        AddrInfo Addr → Search host → List (CapabilityDocument F) → Search host
    take_entries bp q [] = q
    take_entries bp q (c ∷ entries) = take_entries bp (take_entry bp q c) entries

    unfoldable pub take_registry :
        AddrInfo Addr → Search host → Result QueryError (List (CapabilityDocument F)) → Search host
    take_registry bp q (err e) = q
    take_registry bp q (ok entries) = take_entries bp q entries

    -- One bootstrap peer, once it is connected, or not.
    unfoldable pub query_registry : AddrInfo Addr → Search host → H × Bool → Search host
    query_registry bp q (h, false) = record q { h = h }
    query_registry bp q (h, true) =
        let (h', answer) = ask_registry h bp.id in
        take_registry bp (record q { h = h' }) (registry_result answer)

    unfoldable pub query_registries : Search host → List (AddrInfo Addr) → Search host
    query_registries q [] = q
    query_registries q (bp ∷ bps) =
        let skipped = query_registries q bps in
        let queried = query_registries (query_registry bp q (dial host q.h bp minute)) bps in
        if is_nobody host bp.id then skipped else queried

    unfoldable pub take_answer :
        Search host
        → RetryAfter
        → Str
        → Result QueryError (CapabilityDocument F)
        → Search host × RetryAfter
    take_answer q r pid (err e) = (q, mark_query_failure r pid (now q.h))
    take_answer q r pid (ok cap) =
        let c = with_gateway pid cap in
        (record q { caps = insert c.peer_id c q.caps }, mark_query_success r pid)

    unfoldable pub query_peer : Search host → RetryAfter → Str → Search host × RetryAfter
    query_peer q r pid =
        let (h', answer) = ask_capability q.h pid in
        if is_listed (lookup pid q.caps) || not (should_query r pid (now q.h))
        then (q, r)
        else take_answer (record q { h = h' }) r pid (capability_result answer)

    unfoldable pub query_peers : Search host → RetryAfter → PeerSet → Search host × RetryAfter
    query_peers q r [] = (q, r)
    query_peers q r ((pid, u) ∷ pids) = let (q', r') = query_peer q r pid in query_peers q' r' pids

    module _ (maps : MapRange) where
      -- All but the queries of single peers: the node after it, and what was gathered.
      unfoldable pub gather : Node F → H → Str → List (AddrInfo Addr) → Node F × Search host
      gather n h rendezvous bootstrap_peers =
          let (h1, found) = discover_peers host h rendezvous (pos 32) in
          let (h2, s) = connect_found h1 (add_all (peers h) []) found in
          let (n', hbs) = heartbeats maps n (now h2) in
          (
            n',
            query_registries (take_heartbeats (record { h = h2; peer_set = s; caps = [] }) hbs)
                bootstrap_peers,
          )

      module _ (sorting : SortSlice) where
        -- Libp2pDiscovery.ListCapabilities, for a node and the times of d.retryAfter.
        unfoldable pub list_capabilities :
            Node F
            → H
            → RetryAfter
            → Str
            → List (AddrInfo Addr)
            → (Node F × H × RetryAfter) × Result Str (List (CapabilityDocument F))
        list_capabilities n h r rendezvous bootstrap_peers =
            let (n', q) = gather n h rendezvous bootstrap_peers in
            let (q', r') = query_peers q r (maps.range (Unit {0}) q.peer_set) in
            ((n', q'.h, r'), sorted_answer (documents_by_id sorting maps q'.caps))
