-- ===== src/Engine.antt =====
-- internal/engine: the broker of one Pod.
pub mod PacketId
pub mod Db
pub mod Publish
pub mod Inbound
pub mod Outbound
pub mod Session
pub mod Connect
pub mod Subscribe
pub mod IpLimit
pub mod Reserve
pub mod Rate
pub mod Registry
pub mod Shutdown
pub mod Run
