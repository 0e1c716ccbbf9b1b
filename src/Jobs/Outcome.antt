-- ===== src/Jobs/Outcome.antt =====
-- worker/jobs.py: the two updates of `erasure_jobs` with which `process_claimed` ends a job.
use unlearn_shield.Prelude.{ℕ, List, none, some, map, if◌then◌else◌}
use unlearn_shield.Python.Bytes.{Text, mem, bytes_eq}
use unlearn_shield.Jobs.Table.{Job, done, failed}

abbrev pub fail : Text → Job → Job
fail error j = record j {
  status = failed;
  last_error = some error;
  leased_by = none;
  lease_expires_at = none;
}

abbrev pub finish : ℕ → Job → Job
finish now j = record j {
  status = done;
  completed_at = some now;
  leased_by = none;
  lease_expires_at = none;
}

-- `UPDATE erasure_jobs SET status = 'failed' ... WHERE erasure_id = ANY(...)`
unfoldable pub mark_failed : List Text → Text → List Job → List Job
mark_failed ids error = map (λ j. if mem j.erasure_id ids then fail error j else j)

-- `UPDATE erasure_jobs SET status = 'done' ... WHERE erasure_id = %s`
unfoldable pub mark_done : Text → ℕ → List Job → List Job
mark_done id now = map (λ j. if bytes_eq j.erasure_id id then finish now j else j)
