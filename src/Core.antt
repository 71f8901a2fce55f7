-- ===== src/Core.antt =====
-- The capture engine, internal/core.
pub mod Budget
pub mod Capture
pub mod Stall
pub mod File
pub mod Cached
pub mod Bus
