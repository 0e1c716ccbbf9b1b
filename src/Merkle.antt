-- ===== src/Merkle.antt =====
-- verify/merkle.py: the sorted Merkle tree of RFC 6962, whose proofs are still checked.
pub mod Tree
pub mod Split
pub mod Walk
pub mod Halves
pub mod Paths
pub mod Roots
pub mod Soundness
pub mod Commit
pub mod Proof
pub mod Leaves
pub mod Absence
pub mod Search
pub mod Entries
pub mod Completeness
