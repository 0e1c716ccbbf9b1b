-- ===== src/Worker/MlpEngine.antt =====
-- engine/active.py where MODEL_ENGINE is "mlp".
use unlearn_shield.Prelude.{ℕ, ◌-◌, List, []}
use unlearn_shield.Prelude.Result.{Result, ◌>>=◌}
use unlearn_shield.Python.Bytes.{Bytes, Text, codes}
use unlearn_shield.Engine.Store.{Store, load_checkpoint}
use unlearn_shield.Engine.Train.{Trainer, train_shard}
use unlearn_shield.Engine.Rebuild.{Context, Rebuilt, digest_at, rebuild_batch_by_ref}
use unlearn_shield.Worker.Process.{Outcome, Engine}
use unlearn_shield.Worker.Active.{Files, promote_artifact, max_key, rebuilt_files}

module _ {D Model Saved Preproc Score : Type 0} (trainer : Trainer D Model Saved Preproc)
    (sha256 : Bytes → Bytes) (c : Context)
    (ensemble_auc : Files (Store D Saved Preproc) Saved
      → List (ℕ × Text)
      → Result (Score × ℕ)) where
  -- `live_model_path`: the checkpoint of the last slice.
  unfoldable pub live_model : Store D Saved Preproc → ℕ → Result Saved
  unfolding load_checkpoint
  live_model store shard = load_checkpoint store.checkpoints shard (c.num_slices - 1)

  -- `replay_digest`: into a directory of its own, which is empty.
  unfoldable pub replay_trained : ℕ → Rebuilt D Saved → Result Text
  unfolding train_shard max_key digest_at
  replay_trained shard replay = do
    trained ←
        train_shard trainer c.num_slices shard replay.seed replay.from_slice replay.records
          replay.resume_state
          (record { routing = []; shards = []; checkpoints = []; preprocs = []; cache = [] })
    last ← max_key trained.digests
    digest_at trained.digests last

  unfoldable pub read_rebuilt : Rebuilt D Saved → Outcome (Rebuilt D Saved)
  read_rebuilt r = record { result_weights = r.result_weights; manifests = r.manifests; replay = r }

  unfoldable pub mlp_engine : Engine (Files (Store D Saved Preproc) Saved) (Rebuilt D Saved) Score
  unfolding rebuild_batch_by_ref rebuilt_files read_rebuilt promote_artifact live_model
      replay_trained
  mlp_engine = record {
    rebuild_batch_by_ref = λ files refs.
        rebuilt_files read_rebuilt files (rebuild_batch_by_ref trainer sha256 c files.store refs);
    promote_artifact = promote_artifact live_model (codes ".pt");
    ensemble_auc = ensemble_auc;
    replay_digest = λ files shard replay. replay_trained shard replay;
  }
