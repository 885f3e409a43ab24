-- ===== src/App.antt =====
-- internal/app: the provider's published state, and the two services.
pub mod Capability
pub mod Client
pub mod Provider
