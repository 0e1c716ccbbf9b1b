-- ===== src/Jobs/Intake.antt =====
-- gateway/idempotency.py: `insert_or_get`. `uuid4()` and the time are arguments; the unique
-- constraint is checked by the statement that inserts.
use unlearn_shield.Prelude.{
  ℕ, Bool, true, false, ◌&&◌, List, [], ◌∷◌, ◌++◌, Option, none, some, if◌then◌else◌,
}
use unlearn_shield.Prelude.Result.{Result, ok, err, type_error, db_error}
use unlearn_shield.Python.Bytes.{Text, bytes_eq}
use unlearn_shield.Jobs.Table.{Job, Reason, queued}

-- The arguments of a request.
pub record Request : Type 0 where
  pub subject_ref : Text
  pub reason : Reason
  pub shard : ℕ
  pub idempotency_key : Text
  pub sla_deadline : ℕ
  pub requested_by : Text

-- `requested_by = %s AND idempotency_key = %s`
unfoldable pub of_request : Text → Text → Job → Bool
of_request principal key j = bytes_eq j.requested_by principal && bytes_eq j.idempotency_key key

-- The first row that a query finds.
unfoldable pub find_request : Text → Text → List Job → Option Job
unfolding of_request
find_request principal key [] = none
find_request principal key (j ∷ jobs) =
    if of_request principal key j then some j else find_request principal key jobs

unfoldable pub new_job : Text → ℕ → Request → Job
new_job id now r = record {
  erasure_id = id;
  subject_ref = r.subject_ref;
  reason = r.reason;
  shard = r.shard;
  status = queued;
  idempotency_key = r.idempotency_key;
  lease_expires_at = none;
  leased_by = none;
  attempts = 0;
  last_error = none;
  sla_deadline = r.sla_deadline;
  requested_by = r.requested_by;
  created_at = now;
  completed_at = none;
}

-- The primary key.
unfoldable pub id_taken : Text → List Job → Bool
id_taken id [] = false
id_taken id (j ∷ jobs) = if bytes_eq j.erasure_id id then true else id_taken id jobs

-- `insert_or_get`: the id, whether a row was created, and the table. `fetchone()[0]` of the second
-- query raises TypeError where there is no row.
unfoldable pub insert_or_get : Text → ℕ → Request → List Job → Result (Text × Bool × List Job)
unfolding new_job
insert_or_get id now r jobs = elim (find_request r.requested_by r.idempotency_key jobs) [
  | none ↦ if id_taken id jobs then err db_error else ok (id, true, jobs ++ (new_job id now r ∷ []))
  | some _ ↦ elim (find_request r.requested_by r.idempotency_key jobs) [
    | none ↦ err type_error
    | some j ↦ ok (j.erasure_id, false, jobs)
  ]
]
