-- ===== src/Engine/Unfitted.antt =====
-- A batch of engine/rebuild.py that takes the last rows of slice 0: the data is gone, but nothing is
-- trained, since the preprocessor cannot be fitted.
use unlearn_shield.Prelude.{
  ℕ, ◌≡◌, refl, inl, inr, not, List, [], ◌∷◌, Option, map, keep, keep_none, All, All-map,
  All-keep_test, ◌==◌, arith,
}
use unlearn_shield.Prelude.Result.{Exc, Result, ok, err, value_error, Result-cases}
use unlearn_shield.Python.Bytes.{Bytes, Text, mem}
use unlearn_shield.Smt.Cache.{tree_for_shard}
use unlearn_shield.Engine.Store.{Row, Store, load_shard, save_shard}
use unlearn_shield.Engine.Train.{Trainer, fit_rows, fit_preprocessor, train_shard}
use unlearn_shield.Engine.Purge.{has_ref, purge_batch}
use unlearn_shield.Engine.Retained.{ref_of, retained}
use unlearn_shield.Engine.Batch.{IsRouted, batch-ok}
use unlearn_shield.Engine.Retraining.{resume-ok}
use unlearn_shield.Engine.Rebuild.{Context, Rebuilt, retrain, rebuild_batch_by_ref}
use unlearn_shield.Engine.Failure.{IsGone, purge_all-IsGone}
use unlearn_shield.Engine.Erasure.{IsReady, purge_batch-ok, saved_shard}

retained-IsGone :
    {D : Type 0} (ref : Text) (rest : List Text) (records : List (Row D))
    → IsGone ref (retained (ref ∷ rest) records)
unfolding IsGone has_ref mem
retained-IsGone ref rest records = keep_none (has_ref ref) _ (
    All-map _ _ _ (λ r e. ground (arith, e))
      (All-keep_test (λ (r : Row _). not (mem (ref_of r) (ref ∷ rest))) records))

module _ {D Model Saved Preproc : Type 0} (trainer : Trainer D Model Saved Preproc)
    (sha256 : Bytes → Bytes) (c : Context) where
  -- What the call leaves behind: the exception of the preprocessor, a shard file without the rows of
  -- the batch, and everything else as it was; and the same batch raises again.
  pub record IsUnfitted (store : Store D Saved Preproc) (shard : ℕ) (records : List (Row D))
      (refs : List Text) (outcome : Store D Saved Preproc × Result (Rebuilt D Saved)) : Type 0 where
    pub raised : outcome.1 ≡ err value_error
    pub purged : load_shard outcome.0.shards shard ≡ ok (retained refs records)
    pub routed : outcome.0.routing ≡ store.routing
    pub kept : outcome.0.checkpoints ≡ store.checkpoints
    pub retried :
        (e : Exc) × (rebuild_batch_by_ref trainer sha256 c outcome.0 refs ≡ (outcome.0, err e))

  rebuild-absent :
      (store : Store D Saved Preproc) (shard : ℕ) (records : List (Row D)) (ref : Text)
      (rest : List Text)
      → All (IsRouted c.num_slices shard store.routing) (ref ∷ rest)
      → load_shard store.shards shard ≡ ok (retained (ref ∷ rest) records)
      → (e : Exc) × (rebuild_batch_by_ref trainer sha256 c store (ref ∷ rest) ≡ (store, err e))
  unfolding rebuild_batch_by_ref purge_batch
  rebuild-absent store shard records ref rest routed there =
      let left = retained (ref ∷ rest) records in
      let (es, m, found, batch, lt) = batch-ok c.num_slices shard store.routing ref rest routed in
      elim (Result-cases (tree_for_shard sha256 store.cache shard (map ref_of left))) [
        | inl (e, k) ↦ (e, rw (rebuild_batch_by_ref, purge_batch, found, batch, there, k) refl)
        | inr (tree, k) ↦ (
          value_error,
          rw
              (
                rebuild_batch_by_ref,
                purge_batch,
                found,
                batch,
                there,
                k,
                purge_all-IsGone left 0 ref (ref ∷ rest) (retained-IsGone ref rest records)
                    (inl refl),
              )
              refl,
        )
      ]

  train_shard-unfitted :
      (num_slices shard seed from_slice : ℕ) (records : List (Row D)) (state : Option Saved)
      (store : Store D Saved Preproc)
      → keep (λ (r : Row D). r.slice_idx == 0) records ≡ []
      → train_shard trainer num_slices shard seed from_slice records state store ≡ err value_error
  unfolding train_shard fit_preprocessor fit_rows
  train_shard-unfitted num_slices shard seed from_slice records state store e =
      rw (train_shard, fit_preprocessor, e) refl

  -- A batch that is ready but leaves no row in slice 0 raises the ValueError of the preprocessor. By
  -- then the shard file has lost its rows; the routing table and the checkpoints are as before, and
  -- the same batch raises again.
  pub rebuild_batch-IsUnfitted :
      (store : Store D Saved Preproc) (shard : ℕ) (records : List (Row D)) (ref : Text)
      (rest : List Text)
      → IsReady trainer sha256 c store shard records (ref ∷ rest)
      → keep (λ (r : Row D). r.slice_idx == 0) (retained (ref ∷ rest) records) ≡ []
      → IsUnfitted store shard records
          (ref ∷ rest)
          (rebuild_batch_by_ref trainer sha256 c store (ref ∷ rest))
  unfolding rebuild_batch_by_ref retrain
  rebuild_batch-IsUnfitted store shard records ref rest ready unfit =
      let (min_slice, tree, lt, w, keys, found) =
        purge_batch-ok trainer sha256 c store shard records ref rest ready in
      let left = retained (ref ∷ rest) records in
      let purged = record store { shards = save_shard shard left store.shards } in
      let (state, model, resumed, started) =
        resume-ok trainer c.num_slices c.seed shard min_slice store lt ready.resumable in
      let stopped =
        train_shard-unfitted c.num_slices shard c.seed min_slice left state purged unfit in
      rw (rebuild_batch_by_ref, found, retrain, resumed, stopped)
        (record {
          raised = refl;
          purged = saved_shard trainer sha256 c shard left store.shards;
          routed = refl;
          kept = refl;
          retried =
              rebuild-absent purged shard records ref rest ready.routed
                (saved_shard trainer sha256 c shard left store.shards);
        })
