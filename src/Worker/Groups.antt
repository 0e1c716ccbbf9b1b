-- ===== src/Worker/Groups.antt =====
-- worker/jobs.py: `process_claimed`, and worker/main.py: `run_once`.
use unlearn_shield.Prelude.{ℕ, Bool, List, [], ◌∷◌, map, length, if◌then◌else◌}
use unlearn_shield.Prelude.Result.{Result, ok, err}
use unlearn_shield.Prelude.Sort.{sort_by}
use unlearn_shield.Python.Bytes.{Text}
use unlearn_shield.Jobs.Table.{Job}
use unlearn_shield.Jobs.Queue.{Claim, by_shard, reap_expired_leases, claim_batch}
use unlearn_shield.Worker.Run.{World, Run, pass, ◌>>=◌, caught, execute, fetch, transaction}
use unlearn_shield.Worker.Process.{
  Outcome, Engine, Settings, group_by_shard, call_engine, should_spot_check, promote_shard,
  record_jobs, fail_group, run_spot_check,
}

module _ {S Replay Score : Type 0} (engine : Engine S Replay Score) (settings : Settings) where
  -- One round of the spot-check loop; an exception is logged.
  unfoldable pub spot_check : ℕ → Outcome Replay → Claim → Run S Score Unit
  unfolding run_spot_check should_spot_check caught
  spot_check shard result job w =
      if should_spot_check engine settings job.erasure_id
      then caught (λ e. pass tt)
          ((run_spot_check engine settings job.erasure_id shard result.replay result.result_weights
              >>= λ matched. pass tt)
            w)
      else (w, ok tt)

  unfoldable pub spot_checks : ℕ → Outcome Replay → List Claim → Run S Score Unit
  unfolding spot_check
  spot_checks shard result [] = pass tt
  spot_checks shard result (job ∷ jobs) = do
    _ ← spot_check shard result job
    spot_checks shard result jobs

  -- The second `try` block.
  unfoldable pub record_group : ℕ → List Claim → Outcome Replay → Run S Score Unit
  unfolding promote_shard record_jobs
  record_group shard group result = do
    _ ← promote_shard engine settings shard result.result_weights
    record_jobs engine settings result group

  -- After the second `try` block.
  unfoldable pub after_record :
      ℕ
      → List Claim
      → Outcome Replay
      → World S Score × Result {0} Unit
      → World S Score × Result {0} Unit
  unfolding fail_group spot_checks
  after_record shard group result (w, err e) =
      fail_group engine settings group (settings.bookkeeping_failed shard e) w
  after_record shard group result (w, ok _) = spot_checks shard result group w

  -- After the first `try` block.
  unfoldable pub after_rebuild :
      ℕ → List Claim → World S Score × Result (Outcome Replay) → World S Score × Result {0} Unit
  unfolding fail_group record_group after_record
  after_rebuild shard group (w, err e) =
      fail_group engine settings group (settings.rebuild_failed e) w
  after_rebuild shard group (w, ok result) =
      after_record shard group result (record_group shard group result w)

  -- One round of `process_claimed`.
  unfoldable pub process_group : ℕ × List Claim → Run S Score Unit
  unfolding after_rebuild call_engine
  process_group g w = after_rebuild g.0 g.1 (
      call_engine engine settings
        (λ s. engine.rebuild_batch_by_ref s (map (λ (j : Claim). j.subject_ref) g.1)) w)

  unfoldable pub process_groups : List (ℕ × List Claim) → Run S Score Unit
  unfolding process_group
  process_groups [] = pass tt
  process_groups (g ∷ groups) = do _ ← process_group g; process_groups groups

  -- `process_claimed`
  unfoldable pub process_claimed : List Claim → Run S Score Unit
  unfolding process_groups group_by_shard
  process_claimed jobs = process_groups (group_by_shard (sort_by by_shard jobs))

  -- The first transaction of `run_once`.
  unfoldable pub claim_jobs : (Job → Bool) → Text → ℕ → ℕ → Run S Score (List Claim)
  unfolding reap_expired_leases claim_batch
  claim_jobs locked worker_id lease_seconds limit = do
    _ ← execute (λ db. ok (record db { jobs = (reap_expired_leases settings.now db.jobs).1 }))
    claims ← fetch (λ db. (claim_batch locked worker_id lease_seconds limit settings.now db.jobs).0)
    _ ← execute (λ db. ok (record db {
      jobs = (claim_batch locked worker_id lease_seconds limit settings.now db.jobs).1;
    }))
    pass claims

  unfoldable pub process_jobs : List Claim → Run S Score ℕ
  unfolding process_claimed
  process_jobs [] = pass 0
  process_jobs (j ∷ jobs) = do
    _ ← transaction (process_claimed (j ∷ jobs))
    pass (length (j ∷ jobs))

  -- `run_once`
  unfoldable pub run_once : (Job → Bool) → Text → ℕ → ℕ → Run S Score ℕ
  unfolding claim_jobs process_jobs
  run_once locked worker_id lease_seconds limit = do
    jobs ← transaction (claim_jobs locked worker_id lease_seconds limit)
    process_jobs jobs
