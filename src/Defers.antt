-- ===== src/Defers.antt =====
-- bosun-core/src/defers: deferred actions, their journal on disk, and their replay.
pub mod Format
pub mod Files
pub mod Journal
pub mod Replay
