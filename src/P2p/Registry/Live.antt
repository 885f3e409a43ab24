-- ===== src/P2p/Registry/Live.antt =====
-- What RegistryCapabilities lists: nothing that has expired, and nobody who has not.
use mathlib.Core.List.Perm
use gpuswarm.Common.{
  ℕ, ltb, ◌≤◌, false, Option, none, some, Str, str_eq, str_eq_iff, str_eq_refl, [], ◌∷◌, All,
  if◌then◌else◌, ◌≡◌, refl, ap, ◌∙◌, inl, inr, arith, Bool-cases,
}
use gpuswarm.Common.Int.{ℤ}
use gpuswarm.Common.Clock.{time_after}
use gpuswarm.Common.Members.{All-perm, true-prop}
use gpuswarm.Common.Maps.{GoMap, MapRange, lookup, lookup-insert, insert-All}
use gpuswarm.P2p.Registry.{
  HeartbeatEntry, Node, expired, prune_locked, takes_over, merge_entry, merge_entries, copy_entries,
  merged,
}

-- What holds of every entry of the tables holds of every entry that is listed.
module _ {F : Type 0} (P : Str × HeartbeatEntry F → Type 0)
    (prop : (x : Str × HeartbeatEntry F) → IsProp (P x)) where
  range-All :
      (maps : MapRange) (m : GoMap (HeartbeatEntry F))
      → All P m
      → All P (maps.range (HeartbeatEntry F) m)
  range-All maps m h = All-perm P prop (Perm.symm (maps.range_perm (HeartbeatEntry F) m)) h

  copy-All : (m out : GoMap (HeartbeatEntry F)) → All P m → All P out → All P (copy_entries out m)
  unfolding copy_entries
  copy-All [] out h o = o
  copy-All ((k, v) ∷ m) out h o = copy-All m _ h.1 (insert-All P k v out h.0 o)

  merge-All : (m out : GoMap (HeartbeatEntry F)) → All P m → All P out → All P (merge_entries out m)
  unfolding merge_entries merge_entry
  merge-All [] out h o = o
  merge-All ((k, v) ∷ m) out h o = elim (Bool-cases (takes_over v (lookup k out))) [
    | inl q ↦ rw q (merge-All m _ h.1 (insert-All P k v out h.0 o))
    | inr q ↦ rw q (merge-All m out h.1 o)
  ]

  pub merged-All :
      (maps : MapRange) (n : Node F) (now : ℕ)
      → All P (prune_locked now n.heartbeat_ttl n.heartbeats)
      → All P (prune_locked now n.heartbeat_ttl n.registry)
      → All P (merged maps n now)
  unfolding merged
  merged-All maps n now h r =
      merge-All _ _ (range-All maps _ r) (copy-All _ [] (range-All maps _ h) tt)

module _ {F : Type 0} (now : ℕ) (ttl : ℤ) where
  abbrev pub Unexpired : Str × HeartbeatEntry F → Type 0
  Unexpired (k, e) = expired now ttl e ≡ false

  prune-All : (m : GoMap (HeartbeatEntry F)) → All Unexpired (prune_locked now ttl m)
  unfolding prune_locked
  prune-All [] = tt
  prune-All ((k, e) ∷ m) = elim (Bool-cases (expired now ttl e)) [
    | inl q ↦ rw q (prune-All m)
    | inr q ↦ rw q (q, prune-All m)
  ]

module _ {F : Type 0} where
  -- Nothing that RegistryCapabilities lists was last seen longer ago than the TTL.
  pub merged-Unexpired :
      (maps : MapRange) (n : Node F) (now : ℕ)
      → All (Unexpired now n.heartbeat_ttl) (merged maps n now)
  merged-Unexpired maps n now =
      merged-All (Unexpired now n.heartbeat_ttl) (λ (k, e). true-prop _ _) maps n now
        (prune-All now n.heartbeat_ttl n.heartbeats) (prune-All now n.heartbeat_ttl n.registry)

  -- The peer k has an entry that was seen at t or later.
  abbrev pub SeenSince : GoMap (HeartbeatEntry F) → Str → ℕ → Type 0
  SeenSince m k t = (e : HeartbeatEntry F) × (lookup k m ≡ some e) × (t ≤ e.seen_at)

  pub lookup-merge_entry :
      (m : GoMap (HeartbeatEntry F)) (k j : Str) (v : HeartbeatEntry F)
      → lookup j (merge_entry m k v) ≡ (
          if str_eq k j
          then (if takes_over v (lookup k m) then some v else lookup j m)
          else lookup j m)
  unfolding merge_entry
  lookup-merge_entry m k j v = ground (arith, lookup-insert k j v m)

  later_stays :
      (v w : HeartbeatEntry F)
      → (x : HeartbeatEntry F) × ((if takes_over v (some w) then some v else some w) ≡ some x)
        × (v.seen_at ≤ x.seen_at)
        × (w.seen_at ≤ x.seen_at)
  unfolding takes_over time_after
  later_stays v w = elim (Bool-cases (ltb w.seen_at v.seen_at)) [
    | inl e ↦ (v, rw e refl, omega arith, ground arith)
    | inr e ↦ (w, rw e refl, ground arith, omega arith)
  ]

  taken :
      (v : HeartbeatEntry F) (p : Option (HeartbeatEntry F))
      → (x : HeartbeatEntry F) × ((if takes_over v p then some v else p) ≡ some x)
        × (v.seen_at ≤ x.seen_at)
  taken v none = (v, unfold takes_over in refl, omega arith)
  taken v (some w) = let (x, e, h, k) = later_stays v w in (x, e, h)

  merge_entry-SeenSince_self :
      (m : GoMap (HeartbeatEntry F)) (k : Str) (v : HeartbeatEntry F)
      → SeenSince (merge_entry m k v) k v.seen_at
  merge_entry-SeenSince_self m k v =
      let (x, e, h) = taken v (lookup k m) in
      (x, rw (lookup-merge_entry m k k v, str_eq_refl k) e, h)

  merge_entry-SeenSince :
      (m : GoMap (HeartbeatEntry F)) (k j : Str) (v : HeartbeatEntry F) (t : ℕ)
      → SeenSince m j t
      → SeenSince (merge_entry m k v) j t
  merge_entry-SeenSince m k j v t (d, e, h) = elim (Bool-cases (str_eq k j)) [
    | inl q ↦
        let (x, f, g, l) = later_stays v d in
        let e' : lookup k m ≡ some d = ap (λ i. lookup i m) ((str_eq_iff k j).0 q) ∙ e in
        (x, rw (lookup-merge_entry m k j v, q, e', e) f, omega arith)
    | inr q ↦ (d, rw (lookup-merge_entry m k j v, q) e, h)
  ]

  merge-SeenSince :
      (m out : GoMap (HeartbeatEntry F)) (j : Str) (t : ℕ)
      → SeenSince out j t
      → SeenSince (merge_entries out m) j t
  unfolding merge_entries
  merge-SeenSince [] out j t s = s
  merge-SeenSince ((k, v) ∷ m) out j t s =
      merge-SeenSince m _ j t (merge_entry-SeenSince out k j v t s)

  merge-All-SeenSince :
      (m out : GoMap (HeartbeatEntry F))
      → All (λ (k, v). SeenSince (merge_entries out m) k v.seen_at) m
  unfolding merge_entries
  merge-All-SeenSince [] out = tt
  merge-All-SeenSince ((k, v) ∷ m) out = (
    merge-SeenSince m _ k v.seen_at (merge_entry-SeenSince_self out k v),
    merge-All-SeenSince m (merge_entry out k v),
  )

  -- Every entry of the registry that has not expired is listed, by an entry of its peer that was seen
  -- at the same time or later.
  pub registry-SeenSince :
      (maps : MapRange) (n : Node F) (now : ℕ)
      → All
          (λ (k, v). SeenSince (merged maps n now) k v.seen_at)
          (maps.range (HeartbeatEntry F) (prune_locked now n.heartbeat_ttl n.registry))
  unfolding merged
  registry-SeenSince maps n now = merge-All-SeenSince _ _
