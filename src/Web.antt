-- ===== src/Web.antt =====
-- The web server, internal/web.
pub mod Address
pub mod Hub
pub mod Pairs
pub mod Queue
pub mod Reach
pub mod Ticks
pub mod TopUp
