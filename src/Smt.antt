-- ===== src/Smt.antt =====
-- verify/smt.py: the sparse Merkle tree over subject references.
-- `Hash` has the hashes and the bits of a path, `Tree` the tree that is kept in memory, `Proof`
-- the absence proofs, `Cache` the per-shard cache. The other children prove.
pub mod Hash
pub mod Tree
pub mod Proof
pub mod Reference
pub mod Keys
pub mod Soundness
pub mod Removal
pub mod Encoding
pub mod Trees
pub mod Absence
pub mod Incremental
pub mod Cache
pub mod Climbing
pub mod Digests
pub mod Completeness
