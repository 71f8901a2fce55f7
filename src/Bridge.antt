-- ===== src/Bridge.antt =====
-- The HTTP bridge to ffmpeg, internal/bridge.
pub mod Range
