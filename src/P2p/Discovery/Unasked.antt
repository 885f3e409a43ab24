-- ===== src/P2p/Discovery/Unasked.antt =====
-- What ListCapabilities does to the host before it queries single peers.
use gpuswarm.Common.{
  ℕ, Bool, true, false, ◌||◌, Option, none, some, Str, str_eq, is_empty, trim_space, List, [], ◌∷◌,
  length, ltb, Result, ok, err, ◌≡◌, Bool-cases, inl, inr,
}
use gpuswarm.Common.Int.{ℤ}
use gpuswarm.Common.Maps.{MapRange}
use gpuswarm.Model.{CapabilityDocument}
use gpuswarm.P2p.Host.{
  Host, AddrInfo, QueryError, add_entry, add_entries, add_decoded, add_peer_addrs, dial,
  discover_peers, is_nobody, registry_result,
}
use gpuswarm.P2p.Registry.{Node}
use gpuswarm.P2p.Discovery.{
  PeerSet, Search, connect_found, clear_decoded, clear_if, take_addrs, has_addrs, take_heartbeat,
  take_heartbeats, add_some, take_entry, take_entries, take_registry, query_registry,
  query_registries, gather,
}

-- What every call of the host keeps, but for a query of the peer k for its document.
pub record KeptBut {F : Type 0} (host : Host F) (k : Str) (P : host.H → Type 0) : Type 0 where
  pub adds :
      (h : host.H) (pid : Str) (addrs : List host.Addr) (ttl : ℤ)
      → P h
      → P (host.add_addrs h pid addrs ttl)
  pub clears : (h : host.H) (pid : Str) → P h → P (host.clear_addrs h pid)
  pub connects : (h : host.H) (ai : AddrInfo host.Addr) → P h → P (host.connect h ai).0
  pub finds : (h : host.H) (rendezvous : Str) → P h → P (host.find_peers h rendezvous).0
  pub asks_registries : (h : host.H) (pid : Str) → P h → P (host.ask_registry h pid).0
  pub asks_others :
      (h : host.H) (pid : Str) → str_eq pid k ≡ false → P h → P (host.ask_capability h pid).0

module _ {F : Type 0} (host : Host F) (k : Str) (P : host.H → Type 0)
    (keeps : KeptBut host k P) where
  open host use {H, Addr, self, decode, peers, ask_registry}

  dial-kept : (h : H) (ai : AddrInfo Addr) (ttl : ℤ) → P h → P (dial host h ai ttl).0
  unfolding dial
  dial-kept h ai ttl p = keeps.connects _ ai (keeps.adds h ai.id ai.addrs ttl p)

  add_entry-kept :
      (h : H) (ttl : ℤ) (added : ℕ) (o : Option (AddrInfo Addr))
      → P h
      → P (add_entry host h ttl added o).0
  unfolding add_entry
  add_entry-kept h ttl added none p = p
  add_entry-kept h ttl added (some ai) p = keeps.adds h ai.id ai.addrs ttl p

  add_entries-kept :
      (raw : List Str) (h : H) (pid : Str) (ttl : ℤ) (added : ℕ)
      → P h
      → P (add_entries host h pid raw ttl added).0
  unfolding add_entries
  add_entries-kept [] h pid ttl added p = p
  add_entries-kept (entry ∷ raw) h pid ttl added p =
      add_entries-kept raw _ pid ttl _ (add_entry-kept h ttl added _ p)

  add_decoded-kept :
      (h : H) (o : Option Str) (raw : List Str) (ttl : ℤ) → P h → P (add_decoded host h o raw ttl).0
  unfolding add_decoded
  add_decoded-kept h none raw ttl p = p
  add_decoded-kept h (some pid) raw ttl p = add_entries-kept raw h pid _ 0 p

  add_peer_addrs-kept :
      (h : H) (id : Str) (raw : List Str) (ttl : ℤ) → P h → P (add_peer_addrs host h id raw ttl).0
  unfolding add_peer_addrs
  add_peer_addrs-kept h id raw ttl p = add_decoded-kept h (decode (trim_space id)) raw ttl p

  connect_found-kept :
      (found : List (AddrInfo Addr)) (h : H) (s : PeerSet)
      → P h
      → P (connect_found host h s found).0
  unfolding connect_found
  connect_found-kept [] h s p = p
  connect_found-kept (ai ∷ found) h s p = elim (Bool-cases (is_nobody host ai.id)) [
    | inl e ↦ rw e (connect_found-kept found h s p)
    | inr e ↦ rw e (connect_found-kept found _ _ (dial-kept h ai _ p))
  ]

  clear_decoded-kept : (h : H) (o : Option Str) → P h → P (clear_decoded host h o)
  unfolding clear_decoded
  clear_decoded-kept h none p = p
  clear_decoded-kept h (some pid) p = keeps.clears h pid p

  clear_if-kept : (b : Bool) (h : H) (id : Str) → P h → P (clear_if host b h id)
  unfolding clear_if
  clear_if-kept true h id p = clear_decoded-kept h (decode id) p
  clear_if-kept false h id p = p

  take_heartbeat-kept :
      (q : Search host) (hb : CapabilityDocument F) → P q.h → P (take_heartbeat host q hb).h
  unfolding take_heartbeat take_addrs
  take_heartbeat-kept q hb p = elim (Bool-cases (has_addrs hb)) [
    | inl e ↦ rw e (add_peer_addrs-kept _ hb.peer_id _ _ (clear_if-kept _ q.h hb.peer_id p))
    | inr e ↦ rw e p
  ]

  take_heartbeats-kept :
      (hbs : List (CapabilityDocument F)) (q : Search host)
      → P q.h
      → P (take_heartbeats host q hbs).h
  unfolding take_heartbeats
  take_heartbeats-kept [] q p = p
  take_heartbeats-kept (hb ∷ hbs) q p = take_heartbeats-kept hbs _ (take_heartbeat-kept q hb p)

  add_some-kept : (h : H) (id : Str) (addrs : List Str) → P h → P (add_some host h id addrs)
  unfolding add_some
  add_some-kept h id addrs p = elim (Bool-cases (ltb 0 (length addrs))) [
    | inl e ↦ rw e (add_peer_addrs-kept h id addrs _ p)
    | inr e ↦ rw e p
  ]

  take_entry-kept :
      (bp : AddrInfo Addr) (q : Search host) (c : CapabilityDocument F)
      → P q.h
      → P (take_entry host bp q c).h
  unfolding take_entry
  take_entry-kept bp q c p = elim (Bool-cases (is_empty c.peer_id || str_eq c.peer_id self)) [
    | inl e ↦ rw e p
    | inr e ↦ rw e (
        add_some-kept _ c.peer_id _ (add_some-kept _ c.peer_id _ (clear_if-kept _ q.h c.peer_id p)))
  ]

  take_entries-kept :
      (bp : AddrInfo Addr) (cs : List (CapabilityDocument F)) (q : Search host)
      → P q.h
      → P (take_entries host bp q cs).h
  unfolding take_entries
  take_entries-kept bp [] q p = p
  take_entries-kept bp (c ∷ cs) q p = take_entries-kept bp cs _ (take_entry-kept bp q c p)

  take_registry-kept :
      (bp : AddrInfo Addr) (q : Search host) (r : Result QueryError (List (CapabilityDocument F)))
      → P q.h
      → P (take_registry host bp q r).h
  unfolding take_registry
  take_registry-kept bp q (err e) p = p
  take_registry-kept bp q (ok cs) p = take_entries-kept bp cs q p

  query_registry-kept :
      (bp : AddrInfo Addr) (q : Search host) (d : H × Bool)
      → P d.0
      → P (query_registry host bp q d).h
  unfolding query_registry
  query_registry-kept bp q (h, false) p = p
  query_registry-kept bp q (h, true) p =
      take_registry-kept bp _ (registry_result (ask_registry h bp.id).1)
        (keeps.asks_registries h bp.id p)

  query_registries-kept :
      (bps : List (AddrInfo Addr)) (q : Search host) → P q.h → P (query_registries host q bps).h
  unfolding query_registries
  query_registries-kept [] q p = p
  query_registries-kept (bp ∷ bps) q p = elim (Bool-cases (is_nobody host bp.id)) [
    | inl e ↦ rw e (query_registries-kept bps q p)
    | inr e ↦ rw e (query_registries-kept bps _ (query_registry-kept bp q _ (dial-kept q.h bp _ p)))
  ]

  pub gather-kept :
      (maps : MapRange) (n : Node F) (h : H) (rendezvous : Str) (bps : List (AddrInfo Addr))
      → P h
      → P (gather host maps n h rendezvous bps).1.h
  unfolding gather discover_peers
  gather-kept maps n h rendezvous bps p =
      query_registries-kept bps _
        (take_heartbeats-kept _ _ (connect_found-kept _ _ _ (keeps.finds h _ p)))
