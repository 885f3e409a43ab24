-- ===== src/P2p/Exchange.antt =====
-- internal/p2p/libp2p_protocols.go: both ends of the streams for documents: what the handlers of
-- RegisterCapabilityHandler and RegisterRegistryHandler answer, which P2p.Host reads.
pub mod Announced
use gpuswarm.Common.{ℕ, true, false, Option, none, some, Str, [], Result, ok}
use gpuswarm.Common.Maps.{MapRange}
use gpuswarm.Model.{CapabilityDocument}
use gpuswarm.P2p.Host.{CapResponse, RegistryResponse, QueryError, announce_error}
use gpuswarm.P2p.Registry.{Node, registry_capabilities}
use gpuswarm.P2p.Streams.{serve_announce}

module _ {F : Type 0} where
  -- For the document that Snapshot gives.
  unfoldable pub serve_capability : CapabilityDocument F → CapResponse F
  serve_capability cap = record { is_ok = true; error = []; cap = some cap }

  unfoldable pub serve_registry : MapRange → Node F → ℕ → Node F × RegistryResponse F
  serve_registry maps n now =
      let (n', peers) = registry_capabilities maps n now in
      (n', record { is_ok = true; error = []; peers = peers })

  unfoldable pub announce_answer : Option Str → CapResponse F
  announce_answer none = record { is_ok = true; error = []; cap = none }
  announce_answer (some e) = record { is_ok = false; error = e; cap = none }

  -- AnnounceRegistry to a node, on streams that work: the node after it, and the error.
  unfoldable pub announce_to : Node F → CapabilityDocument F → ℕ → Node F × Option QueryError
  announce_to n cap now =
      let (n', e) = serve_announce n (some cap) now in (n', announce_error (ok (announce_answer e)))
