-- ===== src/Render.antt =====
-- The renderers' timing: include/render, src/render. Times in microseconds are integers without
-- bounds: those of a session stay far below 2 ^ 63.
pub mod PtsNormalizer
pub mod AvSync
pub mod PlaybackClock
pub mod FillPolicy
pub mod PcmQueue
