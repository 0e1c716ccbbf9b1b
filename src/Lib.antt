-- ===== src/Lib.antt =====
-- UnlearnShield: provable machine unlearning for tabular fraud models.
--
-- A gateway records erasure requests in a job table. Workers claim jobs under a lease, purge the
-- subjects from their shard, retrain the shard from the slice before theirs, and sign a manifest
-- for each subject with a proof that it is absent from the tree over the references that are left.
--
-- Prelude: tests on numbers, lists, sorting, and exceptions as values (Prelude.Result). Only the
--   class of an exception is kept, not its message.
-- Python: bytes and texts as lists of codes, the order of bytes and sorted(set(...)),
--   bytes.fromhex and hex(), int64 of numpy, and the values of a parsed JSON document. Texts are of
--   ASCII.
-- Smt: verify/smt.py. Hash and Tree are the definitions of the tree (_leaf, _node, _build,
--   _remove_key, SparseMerkleTree), Proof is prove_absence and verify_absence, Cache is
--   tree_for_shard. Reference is an independent description, the full binary tree with 2^256
--   leaves; Keys, Removal, Trees and Incremental relate the two; Climbing, Digests, Soundness,
--   Completeness, Encoding and Absence are about proofs. SHA-256 is the parameter sha256; IsDigest
--   says that its digests are 32 octets, where a theorem needs it. No theorem assumes that it has
--   no collision at large: a collision is exhibited, or a hypothesis names the two inputs. A
--   theorem on a forged proof names the input that is collided with: one that the tree hashes. It
--   does not bound the entries of a digest: it assumes IsSized, 32 entries, which an injective
--   function has too (Examples/Injective).
-- Jobs: the table erasure_jobs of db/schema.sql as a list of rows. Intake is insert_or_get of
--   gateway/idempotency.py, Queue is worker/queue.py, Outcome is the updates of erasure_jobs in
--   worker/jobs.py. Each is one statement on the table as it stands; the time, the new id and the
--   rows that other transactions lock (SKIP LOCKED) are arguments. Steps is their step relation,
--   in any order and at any times; Requests, Claims, Holding, Records, Leases and Recovery are
--   about it.
-- Engine: Sharder is engine/sharder.py, blake2b and the comparison of two scores being
--   parameters. Slicer is engine/slicer.py, with the order of np.lexsort as a parameter, and the
--   wrap-around of int64 (Python/Int64); out[order] = ... is modelled as sorting by position.
--   ExactSlices and Slices are about it. The other files are engine/rebuild.py's
--   rebuild_batch_by_ref, engine/train.py's train_shard and the check in ShardPreprocessor.fit of
--   engine/preprocessing.py. Store is the shard files, the routing table, the checkpoints and the tree cache;
--   Purge is the half of the call before its first write, Train the slice loop, Rebuild the whole
--   call, which gives the state it leaves behind also where it raises. The parameter Trainer
--   stands for what torch and numpy compute in floating point: the preprocessor, the network, one
--   slice's epochs and the digest of a state dict. sign_manifest is an argument that may raise.
--   Retained, Batch, Retraining, Manifests, Erasure, Failure and Unfitted are about it.
-- Gbdt: engine/gbdt.py, the second engine, on the same shard files, routing table and tree cache.
--   Boost is features, _matrix, train_shard, rollback and rebuild_booster, Rebuild is
--   rebuild_batch_by_ref and replay_digest, Build is build and the entry points on raw
--   identifiers. XGBoost is the parameter Xgb; IsBoosting are the laws that it documents of
--   slices of a booster, where a theorem needs them. Exact, Training, Batch, Erasure, Replay and
--   Failure are about it.
-- Merkle: verify/merkle.py, the older scheme, whose proofs are still checked. Tree is _commit, _mth,
--   _audit_path and reconstruct_root, Proof is prove_absence and verify_absence on any parsed
--   values but floats. Split, Walk and Halves are about the pairs (fn, sn) of the verifier's loop,
--   Paths describes independently what it computes, from the root down; Roots, Soundness, Commit,
--   Leaves, Absence, Search, Entries and Completeness are about proofs.
-- Worker: Promote is _promote of worker/jobs.py, up to its call of record_eval. The query for
--   the version promoted last is a parameter, since it returns any of the rows with the greatest
--   time. Run is a call of the worker, which changes the files of the engine and the database of
--   its connection, and returns or raises: a statement that fails aborts the transaction, every
--   further one raises, and a block that raises or ends aborted is rolled back. Process has
--   record_eval, run_spot_check and the steps of process_claimed, Groups has process_claimed and
--   run_once of worker/main.py. Untouched, Settling and Stuck are about a round of
--   process_claimed. The record Engine is what the worker calls of engine/active.py; Active has promote_artifact, and
--   MlpEngine and GbdtEngine fill the record for the two settings of MODEL_ENGINE, with Engine and
--   Gbdt. Scoring the promoted ensemble is a parameter.
-- Certificate: Verifier is verify_certificate and verify_absence of verify/verifier_cli.py, with
--   canonical_bytes of verify/manifest.py; a line of its findings is a constructor of Finding.
--   json.dumps and the check of an Ed25519 signature are parameters. Accepted and
--   Complete are about it.
-- Examples: runs on small inputs, and theorems at concrete inputs.
--
-- Recursion is structural throughout. A tree's functions recurse on the levels left, 256 at the
-- root; the slice loop on the slices left, NUM_SLICES - from_slice. Some
-- recursions are on a number that only bounds them: `decimal` is given one more than the number
-- it prints, of which each round takes a digit; in Merkle, _mth and _audit_path are given the number
-- of leaves, the binary search the length of its interval, and bit_length and the inner loop of
-- reconstruct_root a number that each round halves.
--
-- Not modelled: the keys and the signing, the HTTP layer, the connection pool, inference, data
-- generation, the dashboard and the scripts.
pub mod Prelude
pub mod Python
pub mod Smt
pub mod Merkle
pub mod Jobs
pub mod Engine
pub mod Gbdt
pub mod Worker
pub mod Certificate
mod Examples
