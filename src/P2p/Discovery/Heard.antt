-- ===== src/P2p/Discovery/Heard.antt =====
-- Peers that were heard are listed, and are not asked again.
use mathlib.Core.List.Perm
use gpuswarm.Common.{
  Bool, true, false, ◌||◌, not, Str, str_eq, str_eq_iff, List, [], ◌∷◌, any, All, Result, ok, err,
  ◌≡◌, refl, ◌∙◌, arith, Bool-cases, Option-cases, inl, inr,
}
use gpuswarm.Common.Members.{any-mem, mem-map_of_mem}
use gpuswarm.Common.Unique.{lookup-Mem}
use gpuswarm.Common.Sorting.{SortSlice}
use gpuswarm.Common.Maps.{
  GoMap, MapRange, lookup, insert, insert-All, lookup-All, lookup-insert, lookup-delete,
}
use gpuswarm.Model.{CapabilityDocument}
use gpuswarm.P2p.Host.{Host, AddrInfo, QueryError}
use gpuswarm.P2p.Registry.{Node}
use gpuswarm.P2p.Sources.{RetryAfter, should_query, mark_query_failure, mark_query_success}
use gpuswarm.P2p.Discovery.{
  PeerSet, Search, by_id, sorted_answer, take_heartbeat, take_heartbeats, is_listed, take_answer,
  query_peer, query_peers, gather, documents_by_id, list_capabilities,
}
use gpuswarm.P2p.Discovery.Kept.{
  take_heartbeats-Keeps, query_registries-Keeps, query_peers-Keeps, query_peer-Keeps,
}
use gpuswarm.P2p.Discovery.Unasked.{KeptBut, gather-kept}
use gpuswarm.P2p.Discovery.Listed.{heard, searched-Keeps}

module _ {F : Type 0} (k : Str) where
  abbrev pub is_of : CapabilityDocument F → Bool
  is_of c = str_eq c.peer_id k

  abbrev pub Lists : GoMap (CapabilityDocument F) → Type 0
  Lists m = is_listed (lookup k m) ≡ true

  Lists-insert :
      (j : Str) (c : CapabilityDocument F) (m : GoMap (CapabilityDocument F))
      → Lists m
      → Lists (insert j c m)
  unfolding is_listed
  Lists-insert j c m h = rw (lookup-insert j k c m) (ground arith)

  Lists-insert_self :
      (c : CapabilityDocument F) (m : GoMap (CapabilityDocument F))
      → is_of c ≡ true
      → Lists (insert c.peer_id c m)
  unfolding is_listed
  Lists-insert_self c m h = rw (lookup-insert c.peer_id k c m, h) refl

  abbrev any_document : CapabilityDocument F → Bool
  any_document c = true

  abbrev Keyed : GoMap (CapabilityDocument F) → Type 0
  Keyed m = All (λ (j, c). c.peer_id ≡ j) m

  module _ (host : Host F) (sorting : SortSlice) (maps : MapRange) where
    open host use {H, Addr, now, ask_capability}

    kept :
        (c : CapabilityDocument F) (m : GoMap (CapabilityDocument F))
        → any_document c ≡ true
        → Lists m
        → Lists (insert c.peer_id c m)
    kept c m t h = Lists-insert c.peer_id c m h

    any_document-All : (cs : List (CapabilityDocument F)) → All (λ c. any_document c ≡ true) cs
    any_document-All [] = tt
    any_document-All (c ∷ cs) = (refl, any_document-All cs)

    take_heartbeats-Lists :
        (hbs : List (CapabilityDocument F)) (q : Search host)
        → any is_of hbs ≡ true
        → Lists (take_heartbeats host q hbs).caps
    unfolding take_heartbeats take_heartbeat
    take_heartbeats-Lists [] q h = cc
    take_heartbeats-Lists (hb ∷ hbs) q h = elim (Bool-cases (is_of hb)) [
      | inl e ↦
          take_heartbeats-Keeps host any_document Lists kept hbs _ (any_document-All hbs)
            (Lists-insert_self hb q.caps e)
      | inr e ↦ take_heartbeats-Lists hbs _ (rw e at h)
    ]

    -- The peer is not asked: its time in the table stays.
    take_answer_other :
        (q : Search host) (r : RetryAfter) (pid : Str)
        (a : Result QueryError (CapabilityDocument F))
        → str_eq pid k ≡ false
        → lookup k (take_answer host q r pid a).1 ≡ lookup k r
    unfolding take_answer mark_query_failure mark_query_success
    take_answer_other q r pid (err e) h = rw (lookup-insert pid k _ r, h) refl
    take_answer_other q r pid (ok c) h = rw (lookup-delete pid k r, h) refl

    query_peer_unasked :
        (q : Search host) (r : RetryAfter) (pid : Str)
        → Lists q.caps
        → lookup k (query_peer host q r pid).1 ≡ lookup k r
    unfolding query_peer
    query_peer_unasked q r pid h = elim (Bool-cases (str_eq pid k)) [
      | inl e ↦ rw ((str_eq_iff pid k).0 e, h) refl
      | inr e ↦
          elim (Bool-cases (is_listed (lookup pid q.caps) || not (should_query r pid (now q.h)))) [
            | inl s ↦ rw s refl
            | inr s ↦ rw s (take_answer_other _ r pid _ e)
          ]
    ]

    query_peers_unasked :
        (pids : PeerSet) (q : Search host) (r : RetryAfter)
        → Lists q.caps
        → lookup k (query_peers host q r pids).1 ≡ lookup k r
    unfolding query_peers
    query_peers_unasked [] q r h = refl
    query_peers_unasked ((pid, u) ∷ pids) q r h =
        query_peers_unasked pids _ _ (
          query_peer-Keeps host any_document Lists kept (λ g id cs e. any_document-All cs)
            (λ g p c e. refl) q r pid h)
        ∙ query_peer_unasked q r pid h

    take_answer-host :
        (q : Search host) (r : RetryAfter) (pid : Str)
        (a : Result QueryError (CapabilityDocument F))
        → (take_answer host q r pid a).0.h ≡ q.h
    unfolding take_answer
    take_answer-host q r pid (err e) = refl
    take_answer-host q r pid (ok c) = refl

    module _ (P : H → Type 0) (keeps : KeptBut host k P) where
      query_peer-host :
          (q : Search host) (r : RetryAfter) (pid : Str)
          → Lists q.caps
          → P q.h
          → P (query_peer host q r pid).0.h
      unfolding query_peer
      query_peer-host q r pid l p =
          elim (Bool-cases (is_listed (lookup pid q.caps) || not (should_query r pid (now q.h)))) [
            | inl s ↦ rw s p
            | inr s ↦
                rw (s, take_answer-host _ r pid _) (keeps.asks_others q.h pid (other pid q l s) p)
          ]
        where
          other :
              (pid : Str) (q : Search host)
              → Lists q.caps
              → is_listed (lookup pid q.caps) || not (should_query r pid (now q.h)) ≡ false
              → str_eq pid k ≡ false
          other pid q l s = elim (Bool-cases (str_eq pid k)) [
            | inl e ↦ let s' = rw ((str_eq_iff pid k).0 e, l) at s in cc s'
            | inr e ↦ e
          ]

      query_peers-host :
          (pids : PeerSet) (q : Search host) (r : RetryAfter)
          → Lists q.caps
          → P q.h
          → P (query_peers host q r pids).0.h
      unfolding query_peers
      query_peers-host [] q r l p = p
      query_peers-host ((pid, u) ∷ pids) q r l p =
          query_peers-host pids _ _
            (query_peer-Keeps host any_document Lists kept (λ g id cs e. any_document-All cs)
              (λ g p c e. refl) q r pid l)
            (query_peer-host q r pid l p)

    documents-any :
        (caps : GoMap (CapabilityDocument F))
        → Keyed caps
        → Lists caps
        → any is_of (documents_by_id sorting maps caps) ≡ true
    unfolding documents_by_id
    documents-any caps keyed h = elim (Option-cases (lookup k caps)) [
      | inl e ↦ let h' = rw e at h in unfold is_listed in cc h'
      | inr (c, e) ↦
          let id : c.peer_id ≡ k = lookup-All (λ (j, x). x.peer_id ≡ j) k c caps e keyed in
          any-mem is_of c _
            ((Perm.mem_iff (sorting.sort_perm (CapabilityDocument F) by_id _)).1 (
              mem-map_of_mem (λ (j, x). x) (k, c) _
                ((Perm.mem_iff (maps.range_perm (CapabilityDocument F) caps)).1
                  (lookup-Mem k c caps e))))
            ((str_eq_iff c.peer_id k).1 id)
    ]

    any-answered :
        (cs : List (CapabilityDocument F))
        → any is_of cs ≡ true
        → (out : List (CapabilityDocument F)) × (sorted_answer cs ≡ ok out) × (any is_of out ≡ true)
    unfolding sorted_answer
    any-answered [] h = cc
    any-answered (c ∷ cs) h = (c ∷ cs, refl, h)

    -- A peer that some live heartbeat names is listed, whatever fails, and is not asked for its
    -- document: the time of its next query stays, and the host keeps whatever it keeps in all calls
    -- but a query of this peer for its document.
    pub heard_listed :
        (P : H → Type 0) (n : Node F) (h : H) (r : RetryAfter) (rendezvous : Str)
        (bps : List (AddrInfo Addr))
        → KeptBut host k P
        → P h
        → any is_of (heard host sorting maps n h rendezvous) ≡ true
        → ((out : List (CapabilityDocument F)) × ((list_capabilities host maps sorting n h r
                rendezvous bps).1
              ≡ ok out)
            × (any is_of out ≡ true))
          × (lookup k (list_capabilities host maps sorting n h r rendezvous bps).0.2 ≡ lookup k r)
          × P (list_capabilities host maps sorting n h r rendezvous bps).0.1
    unfolding list_capabilities gather
    heard_listed P n h r rendezvous bps keeps p e =
        let known =
          query_registries-Keeps host any_document Lists kept (λ g id cs e. any_document-All cs)
            (λ g p c e. refl) bps _
            (take_heartbeats-Lists (heard host sorting maps n h rendezvous) _ e) in
        (
          any-answered _ (
              documents-any _
                (searched-Keeps host sorting maps any_document Keyed
                  (λ c m t i. insert-All (λ (j, x). x.peer_id ≡ j) c.peer_id c m refl i) n h r
                  rendezvous bps (any_document-All _) (λ g id cs e. any_document-All cs)
                  (λ g p c e. refl) tt)
                (query_peers-Keeps host any_document Lists kept (λ g id cs e. any_document-All cs)
                  (λ g p c e. refl) _ _ r known)),
          query_peers_unasked _ _ r known,
          query_peers-host P keeps _ _ r known
              (gather-kept host k P keeps maps n h rendezvous bps p),
        )
