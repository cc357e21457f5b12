-- ===== src/Mediaflow.antt =====
-- src/mediaflow: the shared media clock, the scheduling of video frames, and the order in which packets
-- of several tracks are sent.
pub mod Timing
pub mod UnifiedClock
pub mod VideoScheduler
pub mod Interleaver
