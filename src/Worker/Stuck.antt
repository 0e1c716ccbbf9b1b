-- ===== src/Worker/Stuck.antt =====
-- worker/jobs.py: a statement that fails in the bookkeeping of a group takes the update to 'failed'
-- with it, and the transaction of worker/main.py is rolled back.
use unlearn_shield.Prelude.{ℕ, ◌≡◌, refl, ap, ◌∙◌, true, false, List, map}
use unlearn_shield.Prelude.Result.{Exc, ok, err, db_error}
use unlearn_shield.Python.Bytes.{Text}
use unlearn_shield.Jobs.Queue.{Claim}
use unlearn_shield.Worker.Run.{World, execute, transaction, close_transaction}
use unlearn_shield.Worker.Process.{Outcome, Engine, Settings, call_engine, fail_group}
use unlearn_shield.Worker.Groups.{record_group, after_record, after_rebuild, process_group}

module _ {S Replay Score : Type 0} (engine : Engine S Replay Score) (settings : Settings) where
  fail_group-aborted :
      (group : List Claim) (error : Text) (w : World S Score)
      → w.aborted ≡ true
      → fail_group engine settings group error w ≡ (w, err db_error)
  unfolding fail_group execute
  fail_group-aborted group error w e = rw (fail_group, e) refl

  after_record-aborted :
      (shard : ℕ) (group : List Claim) (result : Outcome Replay) (w : World S Score) (x : Exc)
      → w.aborted ≡ true
      → after_record engine settings shard group result (w, err x) ≡ (w, err db_error)
  unfolding after_record
  after_record-aborted shard group result w x e =
      fail_group-aborted group (settings.bookkeeping_failed shard x) w e

  process_group-recorded :
      (shard : ℕ) (group : List Claim) (w : World S Score) (s : S) (result : Outcome Replay)
      → engine.rebuild_batch_by_ref w.engine (map (λ (j : Claim). j.subject_ref) group)
        ≡ (s, ok result)
      → process_group engine settings (shard, group) w
        ≡ after_record engine settings shard group result
            (record_group engine settings shard group result (record w { engine = s }))
  unfolding process_group after_rebuild call_engine
  process_group-recorded shard group w s result e = rw (process_group, e) refl

  -- If the rebuild of a group has succeeded, and a statement of its bookkeeping has failed, then the
  -- transaction raises, and it leaves the whole database as it was before: the jobs are not marked
  -- failed, although the engine's files are those of the rebuild and of what came after it.
  pub process_group-rolled_back :
      (shard : ℕ) (group : List Claim) (w w' : World S Score) (s : S) (result : Outcome Replay)
      (x : Exc)
      → engine.rebuild_batch_by_ref w.engine (map (λ (j : Claim). j.subject_ref) group)
        ≡ (s, ok result)
      → record_group engine settings shard group result (record w { engine = s; aborted = false })
        ≡ (w', err x)
      → w'.aborted ≡ true
      → transaction (process_group engine settings (shard, group)) w
        ≡ (record w' { db = w.db; aborted = false }, err db_error)
  unfolding transaction close_transaction
  process_group-rolled_back shard group w w' s result x e f g = ap (close_transaction w.db) (
      process_group-recorded shard group (record w { aborted = false }) s result e
      ∙ ap (after_record engine settings shard group result) f
      ∙ after_record-aborted shard group result w' x g)
