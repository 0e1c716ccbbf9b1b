-- ===== src/Examples/WorkerRuns.antt =====
-- Runs of the worker on a group of one job, with an engine that always succeeds, and of a promotion.
use unlearn_shield.Prelude.{
  ◌+◌, ◌⊎◌, ◌++◌, if◌then◌else◌, ℕ, ◌≡◌, refl, ap, inl, true, false, List, [], ◌∷◌, none, some,
}
use unlearn_shield.Prelude.Result.{Result, ok, err, db_error}
use unlearn_shield.Python.Bytes.{codes, bytes_eq}
use unlearn_shield.Python.Value.{null}
use unlearn_shield.Jobs.Table.{Job, processing, consent_revocation}
use unlearn_shield.Jobs.Queue.{Claim}
use unlearn_shield.Jobs.Outcome.{mark_done}
use unlearn_shield.Engine.Rebuild.{Manifest, digits, decimal}
use unlearn_shield.Worker.Promote.{
  promote, version_for, carried, eval_set_of, checkpoint_taken, version_taken,
}
use unlearn_shield.Worker.Run.{
  ManifestRow, World, pass, lift, then_run, caught, outcome_of, execute, fetch, transaction,
}
use unlearn_shield.Worker.Process.{
  Outcome, Engine, Settings, manifest_at, signature_of, has_manifest, has_check, has_eval,
  call_engine, should_spot_check, paths_of, insert_eval, record_eval, promote_shard,
  insert_manifest, record_job, record_jobs, insert_check, run_spot_check,
}
use unlearn_shield.Worker.Groups.{
  spot_check, spot_checks, record_group, after_record, after_rebuild, process_group,
}
use unlearn_shield.Worker.Settling.{SettledAt, process_group-SettledAt}
use unlearn_shield.Worker.Stuck.{process_group-rolled_back}
use unlearn_shield.Worker.Active.{
  Files, file_at, copy_unless_there, promote_artifact, promote_artifact-keeps,
}

abbrev manifest : Manifest
manifest = record {
  subject_ref = codes "ab";
  shard = 3;
  resumed_from = codes "fresh_init";
  dataset_root = [];
  absence_proof = null;
  code_digest = [];
  config_digest = [];
  result_weights = codes "f00d";
  model_version = [];
  purged_at = [];
  completed_at = [];
  signature = some (codes "51");
}

abbrev outcome : Outcome ℕ
outcome = record {
  result_weights = codes "f00d";
  manifests = (codes "ab", manifest) ∷ [];
  replay = 7;
}

abbrev engine : Engine ℕ ℕ ℕ
engine = record {
  rebuild_batch_by_ref = λ s refs. (1, ok outcome);
  promote_artifact = λ s shard weights. (2, ok weights);
  ensemble_auc = λ s paths. ok (5, 10);
  replay_digest = λ s shard replay. ok (codes "f00d");
}

abbrev settings : Settings
settings = record {
  latest = λ vs. none;
  now = 100;
  last_slice = 4;
  code_digest = [];
  hmac = λ id. id;
  below_rate = λ n. true;
  rebuild_failed = λ e. codes "rebuild";
  bookkeeping_failed = λ shard e. codes "bookkeeping";
}

abbrev job : Job
job = record {
  erasure_id = codes "e1";
  subject_ref = codes "ab";
  reason = consent_revocation;
  shard = 3;
  status = processing;
  idempotency_key = codes "k";
  lease_expires_at = some 50;
  leased_by = some (codes "w");
  attempts = 1;
  last_error = none;
  sla_deadline = 9;
  requested_by = codes "me";
  created_at = 1;
  completed_at = none;
}

abbrev claim : Claim
claim = record { erasure_id = codes "e1"; subject_ref = codes "ab"; shard = 3 }

abbrev world : List ManifestRow → World ℕ ℕ
world manifests = record {
  engine = 0;
  db = record {
    jobs = job ∷ [];
    registry = record { checkpoints = []; versions = [] };
    manifests = manifests;
    evals = [];
    checks = [];
  };
  aborted = false;
}

with_result : {A : Type 0} {B : Type 0} {b : B} (p : A × B) → p.1 ≡ b → p ≡ (p.0, b)
with_result p e = ap (λ r. (p.0, r)) e

returns : (process_group engine settings (3, claim ∷ []) (world [])).1 ≡ ok tt
unfolding process_group call_engine after_rebuild record_group promote_shard then_run fetch execute
    outcome_of promote version_for carried eval_set_of decimal digits checkpoint_taken version_taken
    record_eval paths_of insert_eval has_eval record_jobs record_job lift manifest_at bytes_eq
    signature_of insert_manifest has_manifest mark_done pass after_record spot_checks spot_check
    should_spot_check caught run_spot_check insert_check has_check
returns = refl

process_group-SettledAt_example :
    SettledAt (codes "e1") (process_group engine settings (3, claim ∷ []) (world [])).0.db.jobs
process_group-SettledAt_example =
    process_group-SettledAt engine settings 3 (claim ∷ []) (world [])
      (process_group engine settings (3, claim ∷ []) (world [])).0 (codes "e1")
      (with_result (process_group engine settings (3, claim ∷ []) (world [])) returns) (inl refl)

-- A manifest of the job is there already.
abbrev row : ManifestRow
row = record { erasure_id = codes "e1"; manifest = manifest; signature = codes "51" }

abbrev broken : World ℕ ℕ × Result {0} Unit
broken =
    record_group engine settings 3 (claim ∷ []) outcome (record (world (row ∷ [])) { engine = 1 })

breaks : (broken.1 ≡ err db_error) × (broken.0.aborted ≡ true)
unfolding record_group promote_shard call_engine then_run fetch execute outcome_of promote
    version_for carried eval_set_of decimal digits checkpoint_taken version_taken record_eval
    paths_of insert_eval has_eval record_jobs record_job lift manifest_at bytes_eq signature_of
    insert_manifest has_manifest
breaks = (refl, refl)

process_group-rolled_back_example :
    transaction (process_group engine settings (3, claim ∷ [])) (world (row ∷ []))
    ≡ (record broken.0 { db = (world (row ∷ [])).db; aborted = false }, err db_error)
process_group-rolled_back_example =
    process_group-rolled_back engine settings 3 (claim ∷ []) (world (row ∷ [])) broken.0 1 outcome
      db_error refl (with_result broken breaks.0) breaks.1

abbrev stored : Files ℕ ℕ
stored = record { store = 4; cas = (codes "ab.json", 11) ∷ [] }

-- A promotion into a directory that has another file.
abbrev promoted : Files ℕ ℕ
promoted = (promote_artifact (λ s shard. ok (s + shard)) (codes ".json") stored 3 (codes "cd")).0

promote_artifact-keeps_example :
    (codes "cd.json" ≡ codes "cd" ++ codes ".json")
    × ((m : ℕ) × ((file_at stored.cas (codes "cd.json") ≡ some m)
          ⊎ ((file_at stored.cas (codes "cd.json") ≡ none) × (ok 7 ≡ ok m)))
        × (file_at promoted.cas (codes "ab.json") ≡ (
            if bytes_eq (codes "cd.json") (codes "ab.json")
            then some m
            else file_at stored.cas (codes "ab.json"))))
unfolding promote_artifact copy_unless_there file_at bytes_eq
promote_artifact-keeps_example =
    promote_artifact-keeps (λ s shard. ok (s + shard)) (codes ".json") stored promoted 3
      (codes "cd") (codes "cd.json") (codes "ab.json") refl
