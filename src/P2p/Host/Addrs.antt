-- ===== src/P2p/Host/Addrs.antt =====
-- What the addresses of other nodes can do: whom a node takes up, and for whom addresses are kept.
use gpuswarm.Common.{
  ℕ, suc, ◌+◌, ◌≤◌, false, not, str_eq, str_eq_iff, is_empty, if◌then◌else◌, Bool-cases, Option,
  none, some, Str, trim_space, List, [], ◌∷◌, All, length, ◌≡◌, refl, arith, Option-cases, inl, inr,
}
use gpuswarm.Common.Int.{ℤ, pos}
use gpuswarm.P2p.Host.{
  Host, AddrInfo, parse_bootstrap_infos, parse_static_relay_peers, add_entry, entry_addrs,
  add_entries, need_info, keep_info, add_peer_addrs, is_nobody, take_found, discover_peers,
  named_rendezvous,
}

module _ {F : Type 0} (host : Host F) where
  open host use {H, Addr, new_multiaddr, p2p_info, decode, add_addrs, find_peers}

  abbrev pub Somebody : AddrInfo Addr → Type 0
  Somebody ai = is_nobody host ai.id ≡ false

  take_found-All :
      (limit : ℤ) (out : ℕ) (ps : List (AddrInfo Addr))
      → All Somebody (take_found host limit out ps)
  unfolding take_found
  take_found-All limit out [] = tt
  take_found-All limit out (p ∷ ps) =
      ground (arith, take_found-All limit out ps, take_found-All limit (suc out) ps)

  take_found-le :
      (n out : ℕ) (ps : List (AddrInfo Addr))
      → out + 1 ≤ n
      → length (take_found host (pos n) out ps) + out ≤ n
  unfolding take_found
  take_found-le n out [] h = omega arith
  take_found-le n out (p ∷ ps) h =
      ground (arith, take_found-le n out ps, take_found-le n (suc out) ps)

  -- A search for at most n peers, n positive, gives at most n, and none of them is this node or has an
  -- empty ID.
  pub discover_peers_bounded :
      (h : H) (rendezvous : Str) (n : ℕ)
      → 1 ≤ n
      → (length (discover_peers host h rendezvous (pos n)).1 ≤ n)
        × All Somebody (discover_peers host h rendezvous (pos n)).1
  unfolding discover_peers
  discover_peers_bounded h rendezvous n k =
      elim (Option-cases (find_peers h (named_rendezvous rendezvous)).1) [
        | inl e ↦ rw e (omega arith, tt)
        | inr (ps, e) ↦ rw e (omega (arith, take_found-le n 0 ps), take_found-All (pos n) 0 ps)
      ]

  info_addrs-id :
      (pid : Str) (a : Addr) (o : Option (AddrInfo Addr)) (ai : AddrInfo Addr)
      → (elim o [
        | none ↦ some (record { id = pid; addrs = a ∷ [] })
        | some info ↦ if not (str_eq info.id pid) then none else some info
      ])
        ≡ some ai
      → ai.id ≡ pid
  info_addrs-id pid a none ai h = ground arith
  info_addrs-id pid a (some info) ai h = ground (arith, str_eq_iff info.id pid)

  entry_addrs-id :
      (pid entry : Str) (ai : AddrInfo Addr) → entry_addrs host pid entry ≡ some ai → ai.id ≡ pid
  unfolding entry_addrs
  entry_addrs-id pid entry ai h = elim (Bool-cases (is_empty entry)) [
    | inl e ↦ let k = rw e at h in cc k
    | inr e ↦ elim (Option-cases (new_multiaddr entry)) [
      | inl n ↦ let k = rw (e, n) at h in cc k
      | inr (a, n) ↦ info_addrs-id pid a (p2p_info a) ai (rw (e, n) at h)
    ]
  ]

  module _ (P : H → Type 0) (pid : Str)
      (kept : (h : H) (addrs : List Addr) (ttl : ℤ) → P h → P (add_addrs h pid addrs ttl)) where
    add_entry-Keeps :
        (h : H) (ttl : ℤ) (added : ℕ) (o : Option (AddrInfo Addr))
        → ((ai : AddrInfo Addr) → o ≡ some ai → ai.id ≡ pid)
        → P h
        → P (add_entry host h ttl added o).0
    unfolding add_entry
    add_entry-Keeps h ttl added none e p = p
    add_entry-Keeps h ttl added (some ai) e p = rw (e ai refl) (kept h ai.addrs ttl p)

    add_entries-Keeps :
        (raw : List Str) (h : H) (ttl : ℤ) (added : ℕ)
        → P h
        → P (add_entries host h pid raw ttl added).0
    unfolding add_entries
    add_entries-Keeps [] h ttl added p = p
    add_entries-Keeps (entry ∷ raw) h ttl added p =
        add_entries-Keeps raw _ ttl _
          (add_entry-Keeps h ttl added _ (entry_addrs-id pid (trim_space entry)) p)

    -- What AddPeerAddrs does to the peerstore is only to add addresses for the peer that its ID names:
    -- whatever such additions keep, it keeps, whoever else the addresses name.
    pub add_peer_addrs-Keeps :
        (h : H) (peer_id : Str) (raw : List Str) (ttl : ℤ)
        → decode (trim_space peer_id) ≡ some pid
        → P h
        → P (add_peer_addrs host h peer_id raw ttl).0
    unfolding add_peer_addrs
    add_peer_addrs-Keeps h peer_id raw ttl e p = rw e (add_entries-Keeps raw h _ 0 p)

  need-keep :
      (c : Option (Option (AddrInfo Addr))) (o : Option (List (AddrInfo Addr)))
      (rest relays : List (AddrInfo Addr))
      → ((out : List (AddrInfo Addr)) → o ≡ some out → rest ≡ out)
      → need_info host c o ≡ some relays
      → keep_info host c rest ≡ relays
  unfolding need_info keep_info
  need-keep none o rest relays ih h = ih relays h
  need-keep (some none) o rest relays ih h = cc
  need-keep (some (some ai)) none rest relays ih h = cc
  need-keep (some (some ai)) (some out) rest relays ih h = let e = ih out refl in ground arith

  -- Where the list of static relays is accepted, it is the list of the bootstrap peers.
  pub static_relays-eq-bootstrap :
      (raw : List Str) (relays : List (AddrInfo Addr))
      → parse_static_relay_peers host raw ≡ some relays
      → parse_bootstrap_infos host raw ≡ relays
  unfolding parse_static_relay_peers parse_bootstrap_infos
  static_relays-eq-bootstrap [] relays h = ground arith
  static_relays-eq-bootstrap (r ∷ raw) relays h =
      need-keep _ _ _ relays (λ out e. static_relays-eq-bootstrap raw out e) h
