-- ===== src/P2p/Registry/Keyed.antt =====
-- The tables of a node hold each peer under its own ID, and a live entry of the registry is answered.
use mathlib.Core.List.Perm
use gpuswarm.Common.{
  ℕ, Bool, true, false, not, none, some, Str, str_eq, str_eq_refl, is_empty, trim_space, List, [],
  ◌∷◌, any, All, All-filter, ◌≡◌, refl, Bool-cases, inl, inr,
}
use gpuswarm.Common.Int.{ℤ}
use gpuswarm.Common.Members.{any-mem, mem-map_of_mem, mem-filter_iff, All-imp, All-mem, true-prop}
use gpuswarm.Common.Unique.{Unique, lookup-Mem}
use gpuswarm.Common.Maps.{GoMap, MapRange, lookup, insert-All, lookup-All}
use gpuswarm.Model.{CapabilityDocument}
use gpuswarm.P2p.Registry.{
  HeartbeatEntry, Node, expired, prune_locked, heartbeats, registry_capabilities, caps_of, dated,
  merged, upsert_registry_capability, consume_heartbeat,
}
use gpuswarm.P2p.Registry.Live.{SeenSince, merged-All, registry-SeenSince}
use gpuswarm.P2p.Registry.Refines.{
  Event, announced, message, registry_listed, heartbeats_listed, step, run, entry_at,
}

module _ {F : Type 0} where
  abbrev pub Keyed : Str × HeartbeatEntry F → Type 0
  Keyed (k, e) = str_eq e.cap.peer_id k ≡ true

  -- Each table has one entry for a peer, under the ID that its document names.
  pub record WellFormed (n : Node F) : Type 0 where
    pub heartbeats_unique : Unique n.heartbeats
    pub registry_unique : Unique n.registry
    pub heartbeats_keyed : All Keyed n.heartbeats
    pub registry_keyed : All Keyed n.registry

  prune-Keyed :
      (now : ℕ) (ttl : ℤ) (m : GoMap (HeartbeatEntry F))
      → All Keyed m
      → All Keyed (prune_locked now ttl m)
  unfolding prune_locked
  prune-Keyed now ttl m h = All-filter Keyed (λ (k, e). not (expired now ttl e)) m h

  entry_at-Keyed : (doc : CapabilityDocument F) (now : ℕ) → Keyed (doc.peer_id, entry_at doc now)
  unfolding dated
  entry_at-Keyed doc now = str_eq_refl doc.peer_id

  module _ (maps : MapRange) where
    step-Keyed :
        (ev : Event F) (now : ℕ) (n : Node F)
        → All Keyed n.heartbeats × All Keyed n.registry
        → All Keyed (step maps n ev now).heartbeats × All Keyed (step maps n ev now).registry
    unfolding step upsert_registry_capability consume_heartbeat registry_capabilities heartbeats
    step-Keyed (announced doc) now n h = elim (Bool-cases (is_empty (trim_space doc.peer_id))) [
      | inl q ↦ rw q h
      | inr q ↦ rw q (
        h.0,
        insert-All Keyed doc.peer_id (entry_at doc now) n.registry (entry_at-Keyed doc now) h.1,
      )
    ]
    step-Keyed (message b none) now n h = h
    step-Keyed (message true (some doc)) now n h = h
    step-Keyed (message false (some doc)) now n h = (
      insert-All Keyed doc.peer_id (entry_at doc now) n.heartbeats (entry_at-Keyed doc now) h.0,
      h.1,
    )
    step-Keyed registry_listed now n h = (
      prune-Keyed now n.heartbeat_ttl n.heartbeats h.0,
      prune-Keyed now n.heartbeat_ttl n.registry h.1,
    )
    step-Keyed heartbeats_listed now n h = (prune-Keyed now n.heartbeat_ttl n.heartbeats h.0, h.1)

    pub run-Keyed :
        (evs : List (Event F × ℕ)) (n : Node F)
        → All Keyed n.heartbeats × All Keyed n.registry
        → All Keyed (run maps n evs).heartbeats × All Keyed (run maps n evs).registry
    unfolding run
    run-Keyed [] n h = h
    run-Keyed ((ev, now) ∷ evs) n h = run-Keyed evs _ (step-Keyed ev now n h)

  abbrev pub is_named : Str → CapabilityDocument F → Bool
  is_named k doc = str_eq doc.peer_id k

  module _ (maps : MapRange) where
    -- A peer that the merged table has an entry of is in the answer to a query.
    answered_of_SeenSince :
        (n : Node F) (now : ℕ) (k : Str) (t : ℕ)
        → All Keyed (merged maps n now)
        → SeenSince (merged maps n now) k t
        → any (is_named k) (registry_capabilities maps n now).1 ≡ true
    unfolding registry_capabilities caps_of
    answered_of_SeenSince n now k t keyed (e, q, h) =
        any-mem (is_named k) e.cap _
          (mem-map_of_mem (λ (j, d). d.cap) (k, e) _
            ((Perm.mem_iff (maps.range_perm (HeartbeatEntry F) (merged maps n now))).1
              (lookup-Mem k e _ q)))
          (lookup-All Keyed k e _ q keyed)

    -- So is a peer with a live entry in the registry.
    pub answered :
        (n : Node F) (now : ℕ) (k : Str) (e : HeartbeatEntry F)
        → All Keyed n.heartbeats × All Keyed n.registry
        → lookup k n.registry ≡ some e
        → expired now n.heartbeat_ttl e ≡ false
        → any (is_named k) (registry_capabilities maps n now).1 ≡ true
    unfolding prune_locked
    answered n now k e h f x =
        let keyed =
          merged-All Keyed (λ (j, d). true-prop _ _) maps n now
            (prune-Keyed now n.heartbeat_ttl n.heartbeats h.0)
            (prune-Keyed now n.heartbeat_ttl n.registry h.1) in
        All-mem (λ (j, d). any (is_named j) (registry_capabilities maps n now).1 ≡ true)
          (λ (j, d). true-prop _ _) _
          (All-imp _ _ (λ (j, d) s. answered_of_SeenSince n now j d.seen_at keyed s) _
            (registry-SeenSince maps n now))
          (k, e)
          ((Perm.mem_iff (maps.range_perm (HeartbeatEntry F) _)).1 (
            (mem-filter_iff (λ (j, d). not (expired now n.heartbeat_ttl d)) (k, e) n.registry).1
              (lookup-Mem k e n.registry f, rw x refl)))
