-- ===== src/App/Client/Peers.antt =====
-- ListPeers: the newest document of each peer, with the node's own among them, newest first.
pub mod Newest
use gpuswarm.Common.{
  ℕ, Bool, true, false, Option, none, some, Str, str, str_eq, is_empty, List, [], ◌∷◌, ◌++◌, map,
  if◌then◌else◌, Result, ok, err,
}
use gpuswarm.Common.Int.{pos}
use gpuswarm.Common.Clock.{time_after}
use gpuswarm.Common.Floats.{Float64}
use gpuswarm.Common.Maps.{GoMap, MapRange, lookup, insert}
use gpuswarm.Common.Sorting.{SortSlice}
use gpuswarm.Model.{CapabilityDocument}
use gpuswarm.App.Client.{ClientOptions}

module _ (fl : Float64) where
  open fl use {F, milli}

  -- The document of a node that has published none; the fields that are not named are zero.
  unfoldable pub own_document : ClientOptions → ℕ → CapabilityDocument F
  own_document o now = record {
    peer_id = o.peer_id;
    is_self = true;
    node_name = o.peer_name;
    models = [];
    announce_addrs = [];
    gpu = [];
    vram_free_mb = pos 0;
    queue_depth = pos 0;
    avg_latency_ms = pos 0;
    reliability = milli 0;
    gateway_url = str "libp2p://" ++ o.peer_id;
    updated_at = now;
  }

  unfoldable pub mark_self : ClientOptions → CapabilityDocument F → CapabilityDocument F
  mark_self o c = if str_eq c.peer_id o.peer_id then record c { is_self = true } else c

  -- `prev, ok := byPeer[c.PeerID]; !ok || c.UpdatedAt.After(prev.UpdatedAt)`
  unfoldable pub replaces : CapabilityDocument F → Option (CapabilityDocument F) → Bool
  replaces c none = true
  replaces c (some prev) = time_after c.updated_at prev.updated_at

  unfoldable pub keep_newest :
      GoMap (CapabilityDocument F) → CapabilityDocument F → GoMap (CapabilityDocument F)
  keep_newest m c = if replaces c (lookup c.peer_id m) then insert c.peer_id c m else m

  unfoldable pub by_peer :
      ClientOptions
      → List (CapabilityDocument F)
      → GoMap (CapabilityDocument F)
      → GoMap (CapabilityDocument F)
  by_peer o [] m = m
  by_peer o (c ∷ caps) m = by_peer o caps (keep_newest m (mark_self o c))

  unfoldable pub missing : Option (CapabilityDocument F) → Bool
  missing none = true
  missing (some c) = false

  unfoldable pub with_self :
      ClientOptions → ℕ → GoMap (CapabilityDocument F) → GoMap (CapabilityDocument F)
  with_self o now m =
      if is_empty o.peer_id
      then m
      else if missing (lookup o.peer_id m)
      then insert o.peer_id (own_document o now) m
      else m

  unfoldable pub newer : CapabilityDocument F → CapabilityDocument F → Bool
  newer a b = time_after a.updated_at b.updated_at

  unfoldable pub list_peers :
      SortSlice
      → MapRange
      → ClientOptions
      → ℕ
      → Result Str (List (CapabilityDocument F))
      → Result Str (List (CapabilityDocument F))
  list_peers sorting maps o now (err e) =
      if is_empty o.peer_id then err e else ok (own_document o now ∷ [])
  list_peers sorting maps o now (ok caps) = ok (
      sorting.sort (CapabilityDocument F) newer (
        map (λ (k, c). c)
          (maps.range (CapabilityDocument F) (with_self o now (by_peer o caps [])))))
