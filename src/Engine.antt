-- ===== src/Engine.antt =====
-- Erasure of a batch of subjects by the SISA engine: engine/train.py and engine/rebuild.py.
pub mod Store
pub mod Train
pub mod Purge
pub mod Rebuild
pub mod Retained
pub mod Batch
pub mod Retraining
pub mod Manifests
pub mod Erasure
pub mod Failure
pub mod Unfitted
pub mod Sharder
pub mod Slicer
pub mod ExactSlices
pub mod Slices
