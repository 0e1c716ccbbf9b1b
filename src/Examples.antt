-- ===== src/Examples.antt =====
-- Runs on small inputs, and theorems at concrete inputs.
mod Hashes
mod Injective
mod SmtRuns
mod JobRuns
mod EngineRuns
mod ShardRuns
mod SliceRuns
mod PromoteRuns
mod GbdtRuns
mod MerkleRuns
mod WorkerRuns
mod CertificateRuns
