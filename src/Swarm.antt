-- ===== src/Swarm.antt =====
-- The BitTorrent side, internal/swarm.
pub mod Availability
pub mod Pool
pub mod PortSet
pub mod Ports
pub mod Torrent
pub mod Select
