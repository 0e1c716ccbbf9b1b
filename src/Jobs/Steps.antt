-- ===== src/Jobs/Steps.antt =====
-- The job table over time: every statement of gateway/idempotency.py, worker/queue.py and
-- worker/jobs.py that writes `erasure_jobs`, each a transaction of its own.
use unlearn_shield.Prelude.{ℕ, ◌≡◌, Bool, List}
use unlearn_shield.Prelude.Result.{ok}
use unlearn_shield.Python.Bytes.{Text}
use unlearn_shield.Jobs.Table.{Job}
use unlearn_shield.Jobs.Queue.{reap_expired_leases, claim_batch}
use unlearn_shield.Jobs.Intake.{Request, insert_or_get}
use unlearn_shield.Jobs.Outcome.{mark_failed, mark_done}

-- A statement that runs at the time `now`.
pub data Step (now : ℕ) (jobs : List Job) : List Job → Type 0 where
  reap : Step now jobs (reap_expired_leases now jobs).1
  claim :
      (locked : Job → Bool) (worker_id : Text) (lease_seconds limit : ℕ)
      → Step now jobs (claim_batch locked worker_id lease_seconds limit now jobs).1
  submit :
      (id : Text) (r : Request) {reply : Text} {created : Bool} {after : List Job}
      → insert_or_get id now r jobs ≡ ok (reply, created, after)
      → Step now jobs after
  give_up : (ids : List Text) (error : Text) → Step now jobs (mark_failed ids error jobs)
  complete : (id : Text) → Step now jobs (mark_done id now jobs)

-- The tables that can come about from a table, at any times.
pub data Steps (jobs : List Job) : List Job → Type 0 where
  here : Steps jobs jobs
  next :
      {now : ℕ} {between after : List Job}
      → Steps jobs between
      → Step now between after
      → Steps jobs after
