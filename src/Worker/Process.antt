-- ===== src/Worker/Process.antt =====
-- worker/jobs.py: the steps of `process_claimed`, `record_eval` and `run_spot_check`. The engine
-- is the parameter `Engine`, the four functions of engine/active.py.
use unlearn_shield.Prelude.{
  ℕ, Bool, true, false, List, [], ◌∷◌, Option, none, some, map, keep, take, ◌==◌, if◌then◌else◌,
}
use unlearn_shield.Prelude.Result.{Exc, Result, ok, err, key_error, db_error}
use unlearn_shield.Python.Bytes.{Bytes, Text, mem, bytes_eq}
use unlearn_shield.Jobs.Queue.{Claim}
use unlearn_shield.Jobs.Outcome.{mark_failed, mark_done}
use unlearn_shield.Engine.Rebuild.{Manifest}
use unlearn_shield.Engine.Sharder.{int_from_bytes}
use unlearn_shield.Worker.Promote.{Version, Checkpoint, promote, version_for}
use unlearn_shield.Worker.Run.{
  ManifestRow, EvalRow, CheckRow, Database, Run, pass, lift, ◌>>=◌, execute, fetch,
}

-- The dict that a rebuild returns, as far as the worker reads it.
pub record Outcome (Replay : Type 0) : Type 0 where
  pub result_weights : Text
  pub manifests : List (Text × Manifest)
  pub replay : Replay

-- What the worker calls of engine/active.py; `ensemble_auc` is `load_ensemble`, the prediction on the
-- frozen corpus and the AUC, with the number of its rows.
pub record Engine (S Replay Score : Type 0) : Type 0 where
  pub rebuild_batch_by_ref : S → List Text → S × Result (Outcome Replay)
  pub promote_artifact : S → ℕ → Text → S × Result Text
  pub ensemble_auc : S → List (ℕ × Text) → Result (Score × ℕ)
  pub replay_digest : S → ℕ → Replay → Result Text

-- The settings, the clock, the query for the latest version, HMAC with the audit key, the test of the
-- rate, and the texts of exceptions.
pub record Settings : Type 0 where
  pub latest : List Version → Option Version
  pub now : ℕ
  pub last_slice : ℕ
  pub code_digest : Text
  pub hmac : Text → Bytes
  pub below_rate : ℕ → Bool
  pub rebuild_failed : Exc → Text
  pub bookkeeping_failed : ℕ → Exc → Text

-- `result["manifests"][ref]`
unfoldable pub manifest_at : List (Text × Manifest) → Text → Result Manifest
manifest_at [] ref = err key_error
manifest_at ((r, m) ∷ rest) ref = if bytes_eq r ref then ok m else manifest_at rest ref

-- `manifest["signature"]`
unfoldable pub signature_of : Manifest → Result Text
signature_of m = elim (m.signature) [ none ↦ err key_error | some s ↦ ok s ]

unfoldable pub has_manifest : Text → List ManifestRow → Bool
has_manifest id [] = false
has_manifest id (r ∷ rows) = if bytes_eq r.erasure_id id then true else has_manifest id rows

unfoldable pub has_check : Text → List CheckRow → Bool
has_check id [] = false
has_check id (r ∷ rows) = if bytes_eq r.erasure_id id then true else has_check id rows

-- `groupby`, on claims that are sorted by shard: the first run of one shard, and the rest.
unfoldable pub put_first : Claim → List (ℕ × List Claim) → List (ℕ × List Claim)
put_first j [] = (j.shard, j ∷ []) ∷ []
put_first j ((shard, group) ∷ groups) =
    if j.shard == shard
    then (shard, j ∷ group) ∷ groups
    else (j.shard, j ∷ []) ∷ (shard, group) ∷ groups

unfoldable pub group_by_shard : List Claim → List (ℕ × List Claim)
unfolding put_first
group_by_shard [] = []
group_by_shard (j ∷ jobs) = put_first j (group_by_shard jobs)

module _ {S Replay Score : Type 0} (engine : Engine S Replay Score) (settings : Settings) where
  unfoldable pub has_eval : Text → List (EvalRow Score) → Bool
  has_eval name [] = false
  has_eval name (r ∷ rows) = if bytes_eq r.model_version name then true else has_eval name rows

  -- A call that changes the engine's files.
  unfoldable pub call_engine : {A : Type 0} → (S → S × Result A) → Run S Score A
  call_engine f w = let r = f w.engine in (record w { engine = r.0 }, r.1)

  -- `_should_spot_check`
  unfoldable pub should_spot_check : Text → Bool
  should_spot_check erasure_id =
      settings.below_rate (int_from_bytes 0 (take 8 (settings.hmac erasure_id)))

  -- The query of `record_eval`
  unfoldable pub paths_of : List (Text × Text) → Database Score → List (ℕ × Text)
  paths_of shard_checkpoints db =
      map (λ (c : Checkpoint). (c.shard, c.file_path))
        (keep (λ (c : Checkpoint). mem c.checkpoint_hash (map (λ e. e.1) shard_checkpoints))
          db.registry.checkpoints)

  -- The insert of `record_eval`
  unfoldable pub insert_eval : Text → Score × ℕ → Database Score → Result (Database Score)
  unfolding has_eval
  insert_eval name score db =
      if has_eval name db.evals
      then ok db
      else ok (record db {
        evals = (record { model_version = name; auc = score.0; n_eval = score.1 }) ∷ db.evals;
      })

  -- `record_eval`
  unfoldable pub record_eval : Text → List (Text × Text) → Run S Score Unit
  unfolding paths_of insert_eval call_engine
  record_eval name shard_checkpoints = do
    paths ← fetch (paths_of shard_checkpoints)
    score ← call_engine (λ s. (s, engine.ensemble_auc s paths))
    execute (insert_eval name score)

  -- `_promote`, from the query on with what it finds
  unfoldable pub promote_shard : ℕ → Text → Run S Score Unit
  unfolding record_eval call_engine promote version_for
  promote_shard shard result_weights = do
    cas_path ← call_engine (λ s. engine.promote_artifact s shard result_weights)
    row ← fetch (λ db. settings.latest db.registry.versions)
    _ ← execute (λ db. ok (record db {
      registry =
          promote settings.latest settings.now settings.last_slice settings.code_digest shard
            result_weights cas_path db.registry;
    }))
    let version =
          version_for settings.latest settings.now settings.last_slice settings.code_digest shard
            result_weights row in
        record_eval version.model_version version.shard_checkpoints

  -- The insert into `erasure_manifests`; a row for the job violates its primary key.
  unfoldable pub insert_manifest : Text → Manifest → Text → Database Score → Result (Database Score)
  unfolding has_manifest
  insert_manifest id m signature db =
      if has_manifest id db.manifests
      then err db_error
      else ok (record db {
        manifests =
            (record { erasure_id = id; manifest = m; signature = signature }) ∷ db.manifests;
      })

  -- The body of the loop that records a group.
  unfoldable pub record_job : Outcome Replay → Claim → Run S Score Unit
  unfolding manifest_at signature_of insert_manifest mark_done
  record_job result job = do
    m ← lift (manifest_at result.manifests job.subject_ref)
    signature ← lift (signature_of m)
    _ ← execute (insert_manifest job.erasure_id m signature)
    execute (λ db. ok (record db { jobs = mark_done job.erasure_id settings.now db.jobs }))

  unfoldable pub record_jobs : Outcome Replay → List Claim → Run S Score Unit
  unfolding record_job
  record_jobs result [] = pass tt
  record_jobs result (job ∷ jobs) = do _ ← record_job result job; record_jobs result jobs

  -- An update of the group's jobs to 'failed'.
  unfoldable pub fail_group : List Claim → Text → Run S Score Unit
  unfolding mark_failed
  fail_group group error = execute (λ db.
      ok (record db { jobs = mark_failed (map (λ (j : Claim). j.erasure_id) group) error db.jobs }))

  -- The insert of `run_spot_check`
  unfoldable pub insert_check : Text → Text → Text → Database Score → Result (Database Score)
  unfolding has_check
  insert_check id expected observed db =
      if has_check id db.checks
      then ok db
      else ok (record db {
        checks =
            (record {
              erasure_id = id;
              expected_weights = expected;
              observed_weights = observed;
              matched = bytes_eq observed expected;
              code_digest = settings.code_digest;
            })
            ∷ db.checks;
      })

  -- `run_spot_check`
  unfoldable pub run_spot_check : Text → ℕ → Replay → Text → Run S Score Bool
  unfolding insert_check call_engine
  run_spot_check id shard replay expected = do
    observed ← call_engine (λ s. (s, engine.replay_digest s shard replay))
    _ ← execute (insert_check id expected observed)
    pass (bytes_eq observed expected)
