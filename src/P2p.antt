-- ===== src/P2p.antt =====
-- internal/p2p: how nodes find each other and pass requests on. The network, peer IDs' encoding and
-- JSON are arguments; a peer.ID is the text that its String method gives.
pub mod Context
pub mod Discovery
pub mod Gateway
pub mod Host
pub mod Lan
pub mod Exchange
pub mod Wire
pub mod HttpGateway
pub mod Identity
pub mod Registry
pub mod Sources
pub mod Streams
