-- ===== src/Engine/Train.antt =====
-- engine/train.py: `train_shard`. What torch and numpy compute is a parameter, `Trainer`.
use unlearn_shield.Prelude.{
  ℕ, zero, suc, ◌+◌, ◌-◌, List, [], ◌∷◌, Option, none, some, keep, leb, ltb, ◌==◌, if◌then◌else◌,
}
use unlearn_shield.Prelude.Result.{Result, ok, err, value_error, ◌>>=◌}
use unlearn_shield.Python.Bytes.{Text}
use unlearn_shield.Engine.Store.{Row, Store}

-- `Model` is the network with its optimizer.
pub record Trainer (D Model Saved Preproc : Type 0) : Type 0 where
  -- What `ShardPreprocessor.fit` computes of some rows.
  pub fit : List (Row D) → Preproc
  -- `enforce_determinism(seed)`, `build_model()` and a new optimizer.
  pub build_model : ℕ → Model
  -- `model.load_state_dict(resume_state)`, which raises on a state of another shape.
  pub load_state_dict : Saved → Model → Result Model
  -- The epochs over the transformed rows, shuffled by the given seed. There are some rows: those of
  -- slice 0 are among them, and without those the fit has raised.
  pub train_rows : ℕ → Preproc → List (Row D) → Model → Model
  pub state_dict : Model → Saved
  pub state_dict_digest : Saved → Text

-- What `train_shard` writes, and the digests it returns.
pub record Trained (Saved Preproc : Type 0) : Type 0 where
  pub checkpoints : List ((ℕ × ℕ) × Saved)
  pub preprocs : List (ℕ × Preproc)
  pub digests : List (ℕ × Text)

module _ {D Model Saved Preproc : Type 0} (trainer : Trainer D Model Saved Preproc) where
  -- `ShardPreprocessor.fit`
  unfoldable pub fit_rows : List (Row D) → Result Preproc
  fit_rows [] = err value_error
  fit_rows (r ∷ rows) = ok (trainer.fit (r ∷ rows))

  -- `fit_preprocessor`: on slice 0 only.
  unfoldable pub fit_preprocessor : List (Row D) → Result Preproc
  unfolding fit_rows
  fit_preprocessor records = fit_rows (keep (λ (r : Row D). r.slice_idx == 0) records)

  -- The loop over `range(from_slice, NUM_SLICES)`, of which `left` rounds remain.
  unfoldable pub train_slices :
      (shard seed : ℕ)
      → Preproc
      → List (Row D)
      → (left slice_idx : ℕ) → Model
      → Trained Saved Preproc
      → Trained Saved Preproc
  train_slices shard seed preproc records zero slice_idx model out = out
  train_slices shard seed preproc records (suc left) slice_idx model out =
      let rows = keep (λ (r : Row D). leb r.slice_idx slice_idx) records in
      let model' = trainer.train_rows (seed + slice_idx) preproc rows model in
      let saved = trainer.state_dict model' in
      train_slices shard seed preproc records left (suc slice_idx) model' (record out {
        checkpoints = ((shard, slice_idx), saved) ∷ out.checkpoints;
        digests = (slice_idx, trainer.state_dict_digest saved) ∷ out.digests;
      })

  -- The model that the loop starts from.
  unfoldable pub start_model : ℕ → ℕ → Option Saved → Result Model
  start_model seed from_slice none =
      if ltb 0 from_slice then err value_error else ok (trainer.build_model seed)
  start_model seed from_slice (some saved) =
      if ltb 0 from_slice
      then trainer.load_state_dict saved (trainer.build_model seed)
      else ok (trainer.build_model seed)

  -- `train_shard`, on the records it is given and into the checkpoint directory.
  unfoldable pub train_shard :
      (num_slices shard seed from_slice : ℕ)
      → List (Row D)
      → Option Saved
      → Store D Saved Preproc
      → Result (Trained Saved Preproc)
  unfolding train_slices start_model fit_preprocessor
  train_shard num_slices shard seed from_slice records resume_state store = do
    preproc ← fit_preprocessor records
    model ← start_model seed from_slice resume_state
    ok (
        train_slices shard seed preproc records (num_slices - from_slice) from_slice model (record {
          checkpoints = store.checkpoints;
          preprocs = (shard, preproc) ∷ store.preprocs;
          digests = [];
        }))
