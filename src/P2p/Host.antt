-- ===== src/P2p/Host.antt =====
-- internal/p2p/libp2p_node.go: what a node makes of the addresses of its peers. The libp2p host, with
-- its peerstore, its connections, the streams to other nodes and the clock, is an interface: the state
-- H stands for it, and for the world that it is in.
pub mod Addrs
pub mod Options
use gpuswarm.Common.{
  ℕ, suc, ◌+◌, Bool, true, false, ◌&&◌, ◌||◌, not, Option, none, some, Str, str, str_eq, is_empty,
  trim_space, List, [], ◌∷◌, ◌++◌, map, leb, ltb, length, if◌then◌else◌, Result, ok, err,
}
use gpuswarm.Common.Int.{ℤ, pos, leb_ℤ, ltb_ℤ}
use gpuswarm.Model.{CapabilityDocument}

-- peer.AddrInfo
pub record AddrInfo (Addr : Type 0) : Type 0 where
  pub id : Str
  pub addrs : List Addr

pub record CapResponse (F : Type 0) : Type 0 where
  pub is_ok : Bool
  pub error : Str
  pub cap : Option (CapabilityDocument F)

pub record RegistryResponse (F : Type 0) : Type 0 where
  pub is_ok : Bool
  pub error : Str
  pub peers : List (CapabilityDocument F)

-- Why a query failed: the stream or its JSON, or an answer that says so, with the text that fmt.Errorf
-- takes as a format.
pub data QueryError : Type 0 where
  stream_failed refused : Str → QueryError

pub record Host (F : Type 0) : Type 1 where
  pub H : Type 0
  pub Addr : Type 0
  -- multiaddr.NewMultiaddr, peer.AddrInfoFromP2pAddr, peer.Decode, String and Encapsulate.
  pub new_multiaddr : Str → Option Addr
  pub p2p_info : Addr → Option (AddrInfo Addr)
  pub decode : Str → Option Str
  pub addr_text : Addr → Str
  pub encapsulate : Addr → Addr → Addr
  pub self : Str
  -- time.Now, and what the network knows: the host's own addresses, and the peers it is connected to.
  pub now : H → ℕ
  pub own_addrs : H → List Addr
  pub peers : H → List Str
  pub is_connected : H → Str → Bool
  pub permanent_addr_ttl : ℤ
  pub temp_addr_ttl : ℤ
  -- Peerstore().AddAddrs and ClearAddrs.
  pub add_addrs : H → Str → List Addr → ℤ → H
  pub clear_addrs : H → Str → H
  -- Connect, which says whether it succeeded.
  pub connect : H → AddrInfo Addr → H × Bool
  -- FindPeers: an error, or all that arrives on its channel.
  pub find_peers : H → Str → H × Option (List (AddrInfo Addr))
  -- The decoded answers on the streams of the protocols.
  pub ask_capability : H → Str → H × Result Str (CapResponse F)
  pub ask_registry : H → Str → H × Result Str (RegistryResponse F)
  pub announce : H → Str → CapabilityDocument F → H × Result Str (CapResponse F)

-- 1 min, in nanoseconds.
abbrev pub minute : ℤ
minute = pos 60_000_000_000

unfoldable pub or_text : Str → Str → Str
or_text error d = if is_empty error then d else error

unfoldable pub named_rendezvous : Str → Str
named_rendezvous rendezvous = if is_empty rendezvous then str "infermesh-rendezvous" else rendezvous

module _ {F : Type 0} where
  -- QueryCapability and QueryRegistry, once the stream has answered, and AnnounceRegistry.
  unfoldable pub capability_result :
      Result Str (CapResponse F) → Result QueryError (CapabilityDocument F)
  capability_result (err e) = err (stream_failed e)
  capability_result (ok resp) =
      let failed : Result QueryError (CapabilityDocument F) =
        err (refused (or_text resp.error (str "capability query failed"))) in
      elim resp.cap [ none ↦ failed | some cap ↦ if resp.is_ok then ok cap else failed ]

  unfoldable pub registry_result :
      Result Str (RegistryResponse F) → Result QueryError (List (CapabilityDocument F))
  registry_result (err e) = err (stream_failed e)
  registry_result (ok resp) =
      if resp.is_ok
      then ok resp.peers
      else err (refused (or_text resp.error (str "registry query failed")))

  unfoldable pub announce_error : Result Str (CapResponse F) → Option QueryError
  announce_error (err e) = some (stream_failed e)
  announce_error (ok resp) =
      if resp.is_ok
      then none
      else some (refused (or_text resp.error (str "registry announce failed")))

  module _ (host : Host F) where
    open host use {
      H, Addr, new_multiaddr, p2p_info, decode, addr_text, self, own_addrs, is_connected,
      permanent_addr_ttl, temp_addr_ttl, add_addrs, connect, find_peers,
    }

    -- The address info that a text holds, if it is a p2p multiaddress.
    unfoldable pub bootstrap_info : Str → Option (AddrInfo Addr)
    bootstrap_info r = elim (new_multiaddr r) [ none ↦ none | some a ↦ p2p_info a ]

    -- Where the text is not blank, and trimmed.
    unfoldable pub configured_info : Str → Option (Option (AddrInfo Addr))
    configured_info r =
        if is_empty (trim_space r) then none else some (bootstrap_info (trim_space r))

    unfoldable pub keep_info :
        Option (Option (AddrInfo Addr)) → List (AddrInfo Addr) → List (AddrInfo Addr)
    keep_info none rest = rest
    keep_info (some none) rest = rest
    keep_info (some (some ai)) rest = ai ∷ rest

    unfoldable pub parse_bootstrap_infos : List Str → List (AddrInfo Addr)
    parse_bootstrap_infos [] = []
    parse_bootstrap_infos (r ∷ raw) = keep_info (configured_info r) (parse_bootstrap_infos raw)

    unfoldable pub need_info :
        Option (Option (AddrInfo Addr))
        → Option (List (AddrInfo Addr))
        → Option (List (AddrInfo Addr))
    need_info none rest = rest
    need_info (some none) rest = none
    need_info (some (some ai)) none = none
    need_info (some (some ai)) (some out) = some (ai ∷ out)

    -- `none` is an error.
    unfoldable pub parse_static_relay_peers : List Str → Option (List (AddrInfo Addr))
    parse_static_relay_peers [] = some []
    parse_static_relay_peers (r ∷ raw) =
        need_info (configured_info r) (parse_static_relay_peers raw)

    -- Whom an entry of AddPeerAddrs is added for, and the addresses, if it gives any.
    unfoldable pub entry_addrs : Str → Str → Option (AddrInfo Addr)
    entry_addrs pid entry = if is_empty entry then none else elim (new_multiaddr entry) [
      | none ↦ none
      | some a ↦ elim (p2p_info a) [
        | none ↦ some (record { id = pid; addrs = a ∷ [] })
        | some ai ↦ if not (str_eq ai.id pid) then none else some ai
      ]
    ]

    unfoldable pub add_entry : H → ℤ → ℕ → Option (AddrInfo Addr) → H × ℕ
    add_entry h ttl added none = (h, added)
    add_entry h ttl added (some ai) = (add_addrs h ai.id ai.addrs ttl, added + length ai.addrs)

    -- The loop of AddPeerAddrs.
    unfoldable pub add_entries : H → Str → List Str → ℤ → ℕ → H × ℕ
    add_entries h pid [] ttl added = (h, added)
    add_entries h pid (entry ∷ raw) ttl added =
        let (h', added') = add_entry h ttl added (entry_addrs pid (trim_space entry)) in
        add_entries h' pid raw ttl added'

    unfoldable pub add_decoded : H → Option Str → List Str → ℤ → H × ℕ
    add_decoded h none raw ttl = (h, 0)
    add_decoded h (some pid) raw ttl =
        add_entries h pid raw (if leb_ℤ ttl (pos 0) then minute else ttl) 0

    unfoldable pub add_peer_addrs : H → Str → List Str → ℤ → H × ℕ
    unfolding add_decoded
    add_peer_addrs h peer_id raw ttl = add_decoded h (decode (trim_space peer_id)) raw ttl

    -- `p.ID == "" || p.ID == n.host.ID()`
    unfoldable pub is_nobody : Str → Bool
    is_nobody pid = is_empty pid || str_eq pid self

    -- The loop of DiscoverPeers; `out` is a number of the peers found before.
    unfoldable pub take_found : ℤ → ℕ → List (AddrInfo Addr) → List (AddrInfo Addr)
    take_found limit out [] = []
    take_found limit out (p ∷ ps) =
        let without = take_found limit out ps in
        let after = take_found limit (suc out) ps in
        if is_nobody p.id
        then without
        else if ltb_ℤ (pos 0) limit && leb_ℤ limit (pos (suc out))
        then p ∷ []
        else p ∷ after

    unfoldable pub discover_peers : H → Str → ℤ → H × List (AddrInfo Addr)
    discover_peers h rendezvous limit =
        let (h', found) = find_peers h (named_rendezvous rendezvous) in
        (h', elim found [ none ↦ [] | some ps ↦ take_found limit 0 ps ])

    -- Peerstore().AddAddrs and Connect.
    unfoldable pub dial : H → AddrInfo Addr → ℤ → H × Bool
    dial h ai ttl = connect (add_addrs h ai.id ai.addrs ttl) ai

    -- The loop of connectBootstrapPeers; `lastErr != nil` at the end.
    unfoldable pub connect_bootstrap_peers : H → List Str → Bool → H × Bool
    connect_bootstrap_peers h [] failed = (h, failed)
    connect_bootstrap_peers h (r ∷ raw) failed = elim (bootstrap_info r) [
      | none ↦ connect_bootstrap_peers h raw true
      | some ai ↦
          let (h', connected) = dial h ai permanent_addr_ttl in
          connect_bootstrap_peers h' raw (failed || not connected)
    ]

    -- One tick of bootstrapReconnectLoop.
    unfoldable pub reconnect : H → List (AddrInfo Addr) → H
    reconnect h [] = h
    reconnect h (ai ∷ infos) =
        let skipped = reconnect h infos in
        let dialled = reconnect (dial h ai permanent_addr_ttl).0 infos in
        if is_empty ai.id || is_connected h ai.id then skipped else dialled

    -- mdnsNotifee.HandlePeerFound
    unfoldable pub handle_peer_found : H → AddrInfo Addr → H
    handle_peer_found h pi = (dial h pi temp_addr_ttl).0

    unfoldable pub advertise_addrs : H → List Str
    advertise_addrs h = map (λ a. addr_text a ++ (str "/p2p/" ++ self)) (own_addrs h)
