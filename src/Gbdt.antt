-- ===== src/Gbdt.antt =====
-- engine/gbdt.py: SISA over gradient-boosted trees, where rolling back is truncation.
pub mod Boost
pub mod Exact
pub mod Rebuild
pub mod Training
pub mod Batch
pub mod Erasure
pub mod Replay
pub mod Failure
pub mod Build
