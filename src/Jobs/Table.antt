-- ===== src/Jobs/Table.antt =====
-- The table `erasure_jobs` of db/schema.sql, a list of its rows.
use unlearn_shield.Prelude.{ℕ, Bool, true, false, Option}
use unlearn_shield.Python.Bytes.{Text}

pub data Status : Type 0 where
  queued processing done failed : Status

abbrev pub is_queued : Status → Bool
is_queued queued = true
is_queued _ = false

abbrev pub is_processing : Status → Bool
is_processing processing = true
is_processing _ = false

-- The `CHECK` on `reason`, and the `Literal` of gateway/schemas.py.
pub data Reason : Type 0 where
  consent_revocation fraud_excision : Reason

-- Times are counted from a fixed instant.
pub record Job : Type 0 where
  pub erasure_id : Text
  pub subject_ref : Text
  pub reason : Reason
  pub shard : ℕ
  pub status : Status
  pub idempotency_key : Text
  pub lease_expires_at : Option ℕ
  pub leased_by : Option Text
  pub attempts : ℕ
  pub last_error : Option Text
  pub sla_deadline : ℕ
  pub requested_by : Text
  pub created_at : ℕ
  pub completed_at : Option ℕ
