-- ===== src/Worker/GbdtEngine.antt =====
-- engine/active.py where MODEL_ENGINE is "gbdt".
use unlearn_shield.Prelude.{ℕ, List}
use unlearn_shield.Prelude.Result.{Result}
use unlearn_shield.Python.Bytes.{Bytes, Text, codes}
use unlearn_shield.Engine.Rebuild.{Context}
use unlearn_shield.Gbdt.Boost.{Xgb}
use unlearn_shield.Gbdt.Rebuild.{Store, Rebuilt, load_booster, rebuild_batch_by_ref, replay_digest}
use unlearn_shield.Worker.Process.{Outcome, Engine}
use unlearn_shield.Worker.Active.{Files, promote_artifact, rebuilt_files}

module _ {F Booster Score : Type 0} (xgb : Xgb F Booster) (sha256 : Bytes → Bytes) (c : Context)
    (trees : ℕ)
    (ensemble_auc : Files (Store F Booster) Booster → List (ℕ × Text) → Result (Score × ℕ)) where
  -- `live_model_path`: the booster.
  unfoldable pub live_booster : Store F Booster → ℕ → Result Booster
  unfolding load_booster
  live_booster store shard = load_booster store.boosters shard

  unfoldable pub read_booster : Rebuilt F Booster → Outcome (Rebuilt F Booster)
  read_booster r = record { result_weights = r.result_weights; manifests = r.manifests; replay = r }

  unfoldable pub gbdt_engine : Engine (Files (Store F Booster) Booster) (Rebuilt F Booster) Score
  unfolding rebuild_batch_by_ref rebuilt_files read_booster promote_artifact live_booster
      replay_digest
  gbdt_engine = record {
    rebuild_batch_by_ref = λ files refs.
        rebuilt_files read_booster files (rebuild_batch_by_ref xgb sha256 c trees files.store refs);
    promote_artifact = promote_artifact live_booster (codes ".json");
    ensemble_auc = ensemble_auc;
    replay_digest = λ files shard replay. replay_digest xgb sha256 c trees replay;
  }
