-- ===== src/Jobs/Queue.antt =====
-- worker/queue.py: `reap_expired_leases` and `claim_batch`, on the table as it stands when the
-- statement runs, at the time `now`.
use unlearn_shield.Prelude.{
  ℕ, ◌+◌, Bool, true, false, ◌&&◌, not, List, Option, none, some, map, keep, take, length, ltb, leb,
  ◌==◌, if◌then◌else◌,
}
use unlearn_shield.Prelude.Sort.{sort_by}
use unlearn_shield.Python.Bytes.{Text, mem}
use unlearn_shield.Jobs.Table.{Job, queued, processing, is_queued, is_processing}

-- `lease_expires_at < now()`, which a NULL fails
unfoldable pub lease_expired : ℕ → Option ℕ → Bool
lease_expired now none = false
lease_expired now (some t) = ltb t now

unfoldable pub is_expired : ℕ → Job → Bool
unfolding lease_expired
is_expired now j = is_processing j.status && lease_expired now j.lease_expires_at

abbrev pub requeue : Job → Job
requeue j = record j { status = queued; leased_by = none; lease_expires_at = none }

-- `reap_expired_leases`: the row count and the table.
unfoldable pub reap_expired_leases : ℕ → List Job → ℕ × List Job
reap_expired_leases now jobs =
    (length (keep (is_expired now) jobs), map (λ j. if is_expired now j then requeue j else j) jobs)

-- `ORDER BY shard, sla_deadline`
unfoldable pub by_shard_deadline : Job → Job → Bool
by_shard_deadline a b =
    if ltb a.shard b.shard
    then true
    else if a.shard == b.shard
    then leb a.sla_deadline b.sla_deadline
    else false

-- What the query returns of a row.
pub record Claim : Type 0 where
  pub erasure_id : Text
  pub subject_ref : Text
  pub shard : ℕ

abbrev pub claim_of : Job → Claim
claim_of j = record { erasure_id = j.erasure_id; subject_ref = j.subject_ref; shard = j.shard }

unfoldable pub by_shard : Claim → Claim → Bool
by_shard a b = leb a.shard b.shard

-- The `WHERE` and the `SKIP LOCKED` of the subquery; `locked` are the rows that other
-- transactions hold.
unfoldable pub eligible : (Job → Bool) → Job → Bool
eligible locked j = is_queued j.status && not (locked j)

unfoldable pub candidates : (Job → Bool) → List Job → List Job
unfolding eligible
candidates locked jobs = sort_by by_shard_deadline (keep (eligible locked) jobs)

-- The ids of the subquery, after its `LIMIT`.
unfoldable pub chosen_ids : (Job → Bool) → ℕ → List Job → List Text
chosen_ids locked limit jobs = map (λ (j : Job). j.erasure_id) (take limit (candidates locked jobs))

abbrev pub lease : Text → ℕ → Job → Job
lease worker_id expires j = record j {
  status = processing;
  leased_by = some worker_id;
  lease_expires_at = some expires;
  attempts = j.attempts + 1;
}

-- `claim_batch`: the claims, sorted by shard, and the table.
unfoldable pub claim_batch : (Job → Bool) → Text → ℕ → ℕ → ℕ → List Job → List Claim × List Job
unfolding by_shard
claim_batch locked worker_id lease_seconds limit now jobs =
    let ids = chosen_ids locked limit jobs in
    (
      sort_by by_shard (map claim_of (keep (λ j. mem j.erasure_id ids) jobs)),
      map (λ j. if mem j.erasure_id ids then lease worker_id (now + lease_seconds) j else j) jobs,
    )
