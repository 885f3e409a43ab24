-- ===== src/P2p/Registry.antt =====
-- internal/p2p/libp2p_node.go: the heartbeats that a node has heard and the registry that it keeps for
-- others. Each method holds the mutex; the time is an argument, and so is the order of `range`.
pub mod Live
pub mod Answers
pub mod Refines
pub mod Keyed
use gpuswarm.Common.{
  ℕ, Bool, true, false, not, Option, none, some, Str, is_empty, trim_space, List, [], ◌∷◌, map,
  filter, if◌then◌else◌, ◌==◌,
}
use gpuswarm.Common.Int.{ℤ, ltb_ℤ, pos}
use gpuswarm.Common.Clock.{time_sub, time_after}
use gpuswarm.Common.Maps.{GoMap, MapRange, lookup, insert}
use gpuswarm.Model.{CapabilityDocument}

pub record HeartbeatEntry (F : Type 0) : Type 0 where
  pub cap : CapabilityDocument F
  pub seen_at : ℕ

-- The part of Libp2pNode that these methods use.
pub record Node (F : Type 0) : Type 0 where
  pub heartbeats : GoMap (HeartbeatEntry F)
  pub registry : GoMap (HeartbeatEntry F)
  pub heartbeat_ttl : ℤ

module _ {F : Type 0} where
  unfoldable pub expired : ℕ → ℤ → HeartbeatEntry F → Bool
  expired now ttl e = ltb_ℤ ttl (time_sub now e.seen_at)

  unfoldable pub prune_locked : ℕ → ℤ → GoMap (HeartbeatEntry F) → GoMap (HeartbeatEntry F)
  prune_locked now ttl src = filter (λ (k, e). not (expired now ttl e)) src

  unfoldable pub caps_of : GoMap (HeartbeatEntry F) → List (CapabilityDocument F)
  caps_of m = map (λ (k, e). e.cap) m

  -- Heartbeats, by snapshotMapLocked.
  unfoldable pub heartbeats : MapRange → Node F → ℕ → Node F × List (CapabilityDocument F)
  heartbeats maps n now =
      let live = prune_locked now n.heartbeat_ttl n.heartbeats in
      (record n { heartbeats = live }, caps_of (maps.range (HeartbeatEntry F) live))

  -- `cur, ok := out[k]; !ok || v.seenAt.After(cur.seenAt)`
  unfoldable pub takes_over : HeartbeatEntry F → Option (HeartbeatEntry F) → Bool
  takes_over v none = true
  takes_over v (some cur) = time_after v.seen_at cur.seen_at

  unfoldable pub merge_entry :
      GoMap (HeartbeatEntry F) → Str → HeartbeatEntry F → GoMap (HeartbeatEntry F)
  merge_entry out k v = if takes_over v (lookup k out) then insert k v out else out

  -- The second loop of RegistryCapabilities.
  unfoldable pub merge_entries :
      GoMap (HeartbeatEntry F) → GoMap (HeartbeatEntry F) → GoMap (HeartbeatEntry F)
  merge_entries out [] = out
  merge_entries out ((k, v) ∷ m) = merge_entries (merge_entry out k v) m

  -- The first loop.
  unfoldable pub copy_entries :
      GoMap (HeartbeatEntry F) → GoMap (HeartbeatEntry F) → GoMap (HeartbeatEntry F)
  copy_entries out [] = out
  copy_entries out ((k, v) ∷ m) = copy_entries (insert k v out) m

  unfoldable pub merged : MapRange → Node F → ℕ → GoMap (HeartbeatEntry F)
  merged maps n now =
      merge_entries
        (copy_entries []
          (maps.range (HeartbeatEntry F) (prune_locked now n.heartbeat_ttl n.heartbeats)))
        (maps.range (HeartbeatEntry F) (prune_locked now n.heartbeat_ttl n.registry))

  unfoldable pub registry_capabilities :
      MapRange → Node F → ℕ → Node F × List (CapabilityDocument F)
  registry_capabilities maps n now = (
    record n {
      heartbeats = prune_locked now n.heartbeat_ttl n.heartbeats;
      registry = prune_locked now n.heartbeat_ttl n.registry;
    },
    caps_of (maps.range (HeartbeatEntry F) (merged maps n now)),
  )

  -- A document without a time gets that of its arrival.
  unfoldable pub dated : CapabilityDocument F → ℕ → CapabilityDocument F
  dated cap now = record cap { updated_at = if cap.updated_at == 0 then now else cap.updated_at }

  unfoldable pub upsert_registry_capability : Node F → CapabilityDocument F → ℕ → Node F
  upsert_registry_capability n cap now = if is_empty (trim_space cap.peer_id) then n else record n {
    registry = insert cap.peer_id (record { cap = dated cap now; seen_at = now }) n.registry;
  }

  -- The body of consumeHeartbeats' loop: a message of this node itself, or one that is no document
  -- (`none`), is passed over.
  unfoldable pub consume_heartbeat : Node F → Bool → Option (CapabilityDocument F) → ℕ → Node F
  consume_heartbeat n from_self none now = n
  consume_heartbeat n from_self (some cap) now = if from_self then n else record n {
    heartbeats = insert cap.peer_id (record { cap = dated cap now; seen_at = now }) n.heartbeats;
  }
