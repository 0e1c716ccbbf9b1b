-- ===== src/Engine/Retraining.antt =====
-- The retraining of a shard from a slice that there is.
use unlearn_shield.Prelude.{
  ℕ, zero, suc, ◌+◌, ◌-◌, ◌<◌, ◌≡◌, refl, List, length, keep, ◌==◌, [], ◌∷◌, Option, none, some,
  arith,
}
use unlearn_shield.Prelude.Result.{ok}
use unlearn_shield.Python.Bytes.{Bytes, Text}
use unlearn_shield.Engine.Store.{Row, Store, load_checkpoint}
use unlearn_shield.Engine.Train.{
  Trainer, Trained, train_slices, start_model, fit_rows, fit_preprocessor, train_shard,
}
use unlearn_shield.Engine.Purge.{Purged}
use unlearn_shield.Engine.Rebuild.{Context, digest_at, resume_state_of, retrain}

here_digest :
    (i last : ℕ) (d : Text) (rest : List (ℕ × Text))
    → i ≡ last
    → digest_at ((i, d) ∷ rest) last ≡ ok d
unfolding digest_at
here_digest i last d rest e = ground (arith, e)

-- The index of the last slice, for a call that trains at least one.
last_of : (from num : ℕ) → from < num → from + (num - from) ≡ suc (num - 1)
last_of from num lt = omega arith

module _ {D Model Saved Preproc : Type 0} (trainer : Trainer D Model Saved Preproc) where
  -- The digest of the last slice is there if a round is left, or was there before.
  train_slices-digest_at :
      (shard seed : ℕ) (preproc : Preproc) (records : List (Row D)) (left slice_idx last : ℕ)
      (model : Model) (out : Trained Saved Preproc)
      → slice_idx + left ≡ suc last
      → (left ≡ 0 → (d : Text) × (digest_at out.digests last ≡ ok d))
      → (d : Text) × (digest_at
            (train_slices trainer shard seed preproc records left slice_idx model out).digests
            last
          ≡ ok d)
  unfolding train_slices
  train_slices-digest_at shard seed preproc records zero slice_idx last model out e h = h refl
  train_slices-digest_at shard seed preproc records (suc left) slice_idx last model out e h =
      train_slices-digest_at shard seed preproc records left (suc slice_idx) last _ _ (omega arith)
        (λ z. (_, here_digest slice_idx last _ _ (omega arith)))

  -- Every earlier slice of the shard has a checkpoint that the network loads.
  abbrev pub IsResumable : ℕ → ℕ → ℕ → Store D Saved Preproc → Type 0
  IsResumable num_slices seed shard store =
      (i : ℕ)
      → suc i < num_slices
      → (saved : Saved) × (model : Model) × (load_checkpoint store.checkpoints shard i ≡ ok saved)
        × (trainer.load_state_dict saved (trainer.build_model seed) ≡ ok model)

  -- What the loop of `train_shard` starts from.
  abbrev first_out : ℕ → Preproc → Store D Saved Preproc → Trained Saved Preproc
  first_out shard preproc store = record {
    checkpoints = store.checkpoints;
    preprocs = (shard, preproc) ∷ store.preprocs;
    digests = [];
  }

  -- Some row is in slice 0, which the preprocessor is fitted on.
  abbrev pub IsFittable : List (Row D) → Type 0
  IsFittable records = 0 < length (keep (λ (r : Row D). r.slice_idx == 0) records)

  fit_preprocessor-ok :
      (records : List (Row D))
      → IsFittable records
      → (preproc : Preproc) × (fit_preprocessor trainer records ≡ ok preproc)
  unfolding fit_preprocessor
  fit_preprocessor-ok records h = fitted (keep (λ (r : Row D). r.slice_idx == 0) records) h
    where
      fitted :
          (rows : List (Row D))
          → 0 < length rows
          → (preproc : Preproc) × (fit_rows trainer rows ≡ ok preproc)
      fitted [] lt = absurd (omega arith)
      fitted (r ∷ rows) lt = unfold fit_rows in (trainer.fit (r ∷ rows), refl)

  train_shard-ok :
      (num_slices shard seed from_slice : ℕ) (records : List (Row D)) (state : Option Saved)
      (store : Store D Saved Preproc) (model : Model)
      → from_slice < num_slices
      → IsFittable records
      → start_model trainer seed from_slice state ≡ ok model
      → (trained : Trained Saved Preproc) × (d : Text) × (train_shard trainer num_slices shard seed
            from_slice records state store
          ≡ ok trained)
        × (digest_at trained.digests (num_slices - 1) ≡ ok d)
  unfolding train_shard
  train_shard-ok num_slices shard seed from_slice records state store model lt some_rows e =
      let (preproc, fits) = fit_preprocessor-ok records some_rows in
      let (d, found) =
        train_slices-digest_at shard seed preproc records (num_slices - from_slice) from_slice
          (num_slices - 1) model (first_out shard preproc store) (last_of from_slice num_slices lt)
          (λ z. absurd (omega arith)) in
      (
        train_slices trainer shard seed preproc records (num_slices - from_slice) from_slice model
            (first_out shard preproc store),
        d,
        rw (fits, e) refl,
        found,
      )

  pub resume-ok :
      (num_slices seed shard min_slice : ℕ) (store : Store D Saved Preproc)
      → min_slice < num_slices
      → IsResumable num_slices seed shard store
      → (state : Option Saved) × (model : Model) × (resume_state_of store.checkpoints shard
            min_slice
          ≡ ok state)
        × (start_model trainer seed min_slice state ≡ ok model)
  unfolding resume_state_of start_model
  resume-ok num_slices seed shard zero store lt h =
      (none, trainer.build_model seed, refl, ground arith)
  resume-ok num_slices seed shard (suc i) store lt h =
      let (saved, model, found, loaded) = h i lt in
      (some saved, model, rw found refl, rw loaded (ground arith))

  module _ (sha256 : Bytes → Bytes) (c : Context) (p : Purged D)
      (store : Store D Saved Preproc) where
    -- From a slice that there is, the retraining succeeds and has a digest for the last slice.
    pub retrain-ok :
        p.min_slice < c.num_slices
        → IsFittable p.records
        → IsResumable c.num_slices c.seed p.shard store
        → (state : Option Saved) × (trained : Trained Saved Preproc) × (d : Text) × (retrain trainer
              sha256 c p store
            ≡ ok (state, trained))
          × (digest_at trained.digests (c.num_slices - 1) ≡ ok d)
    unfolding retrain
    retrain-ok lt some_rows resumable =
        let (state, model, found, started) =
          resume-ok c.num_slices c.seed p.shard p.min_slice store lt resumable in
        let (trained, d, t, last) =
          train_shard-ok c.num_slices p.shard c.seed p.min_slice p.records state store model lt
            some_rows started in
        (state, trained, d, rw (found, t) refl, last)
