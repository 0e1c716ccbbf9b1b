-- ===== src/Examples/JobRuns.antt =====
-- gateway/idempotency.py and worker/queue.py on a table of three jobs.
use mathlib.Core.List.{Perm}
use unlearn_shield.Prelude.{
  ℕ, ◌+◌, ◌-◌, if◌then◌else◌, ◌≡◌, ◌≢◌, ◌≤◌, ◌<◌, refl, inl, Bool, true, false, List, [], ◌∷◌, ◌++◌,
  some, none, map, keep, length, All, Pairs, In, arith,
}
use unlearn_shield.Prelude.Result.{ok}
use unlearn_shield.Prelude.Sort.{sort_by, insert_sorted, IsSorted}
use unlearn_shield.Python.Bytes.{Text, mem, bytes_eq}
use unlearn_shield.Jobs.Table.{Job, queued, processing, fraud_excision}
use unlearn_shield.Jobs.Queue.{
  claim_of, Claim, claim_batch, chosen_ids, candidates, eligible, by_shard, by_shard_deadline,
  reap_expired_leases,
}
use unlearn_shield.Jobs.Intake.{Request, insert_or_get, new_job, find_request, id_taken}
use unlearn_shield.Jobs.Requests.{insert_or_get_idempotent}
use unlearn_shield.Jobs.Claims.{claim_batch_exclusive, claim_batch_urgent}
use unlearn_shield.Jobs.Steps.{Step, here, next, claim, submit, reap}
use unlearn_shield.Jobs.Records.{Record, Apart, record_of, Steps-records}
use unlearn_shield.Jobs.Leases.{IsLease, Step-IsLease}
use unlearn_shield.Jobs.Holding.{claim_batch-IsHeld}
use unlearn_shield.Jobs.Recovery.{Spared, start, later, claimed_until_lease_ends}

abbrev request : ℕ → ℕ → Request
request key shard = record {
  subject_ref = 7 ∷ key ∷ [];
  reason = fraud_excision;
  shard = shard;
  idempotency_key = key ∷ [];
  sla_deadline = 100 - key;
  requested_by = 9 ∷ [];
}

abbrev row : ℕ → ℕ → Job
row key shard = new_job (key ∷ []) 0 (request key shard)

abbrev table : List Job
table = row 1 2 ∷ row 2 1 ∷ row 3 1 ∷ []

abbrev nobody : Job → Bool
nobody j = false

-- The row of the shard 1 with the earlier deadline comes first.
first_claim :
    map (λ (c : Claim). c.erasure_id) (claim_batch nobody [] 60 2 5 table).0
    ≡ (2 ∷ []) ∷ (3 ∷ []) ∷ []
unfolding claim_batch chosen_ids candidates eligible by_shard by_shard_deadline new_job sort_by
    insert_sorted keep mem bytes_eq
first_claim = refl

claim_batch_exclusive_example :
    let first = claim_batch nobody (1 ∷ []) 60 2 5 table in
    let second = claim_batch nobody (2 ∷ []) 60 2 6 first.1 in
    All (λ (a : Claim). All (λ (b : Claim). a.erasure_id ≢ b.erasure_id) second.0) first.0
claim_batch_exclusive_example =
    claim_batch_exclusive nobody nobody (1 ∷ []) (2 ∷ []) 60 60 2 2 5 6 table

claim_batch_urgent_example :
    (picked left : List Job) × Perm (picked ++ left) (keep (eligible nobody) table)
    × (length picked ≤ 2)
    × All (λ a. All (λ b. by_shard_deadline a b ≡ true) left) picked
    × IsSorted by_shard (claim_batch nobody (1 ∷ []) 60 2 5 table).0
    × Perm
        (claim_batch nobody (1 ∷ []) 60 2 5 table).0
        (map claim_of (keep (λ j. mem j.erasure_id (map (λ (k : Job). k.erasure_id) picked)) table))
    × ((claim_batch nobody (1 ∷ []) 60 2 5 table).1
        ≡ map
            (λ (j : Job).
              if mem j.erasure_id (map (λ (k : Job). k.erasure_id) picked)
              then record j {
                status = processing;
                leased_by = some (1 ∷ []);
                lease_expires_at = some 65;
                attempts = j.attempts + 1;
              }
              else j)
            table)
claim_batch_urgent_example = claim_batch_urgent nobody (1 ∷ []) 60 2 5 table

fresh_id : id_taken (4 ∷ []) table ≡ false
unfolding id_taken new_job bytes_eq
fresh_id = refl

insert_or_get_idempotent_example :
    (reply : Text) × (created : Bool) × (after : List Job) × (insert_or_get
        (4 ∷ [])
        8
        (request 4 0)
        table
      ≡ ok (reply, created, after))
    × (insert_or_get (5 ∷ []) 9 (request 4 6) after ≡ ok (reply, false, after))
insert_or_get_idempotent_example =
    insert_or_get_idempotent (4 ∷ []) (5 ∷ []) 8 9 (request 4 0) (request 4 6) table fresh_id refl
      refl

one_submitted : insert_or_get (1 ∷ []) 0 (request 1 2) [] ≡ ok (1 ∷ [], true, row 1 2 ∷ [])
unfolding insert_or_get find_request id_taken
one_submitted = refl

-- A request, and a claim of it.
abbrev one_claimed : List Job
one_claimed = (claim_batch nobody (1 ∷ []) 60 1 5 (row 1 2 ∷ [])).1

submitting : Step 0 [] (row 1 2 ∷ [])
submitting = submit (1 ∷ []) (request 1 2) one_submitted

claiming : Step 5 (row 1 2 ∷ []) one_claimed
claiming = claim nobody (1 ∷ []) 60 1

Steps-records_example :
    Pairs Apart (map record_of one_claimed)
    × (more : List Record) × (map record_of one_claimed ≡ [] ++ more)
Steps-records_example = Steps-records (next (next here submitting) claiming) tt

Step-IsLease_example : All IsLease one_claimed
unfolding new_job
Step-IsLease_example = Step-IsLease claiming ((refl, refl), tt)

-- The row 1 as a worker holds it, next to a row that is queued.
abbrev held : Job
held = record (row 1 2) {
  status = processing;
  leased_by = some (1 ∷ []);
  lease_expires_at = some 65;
  attempts = 1;
}

abbrev with_held : List Job
with_held = held ∷ row 2 1 ∷ []

abbrev claimed : List Job
claimed = (claim_batch nobody (2 ∷ []) 60 5 30 with_held).1

other_claim : Step 30 with_held claimed
other_claim = claim nobody (2 ∷ []) 60 5

a_reap : Step 40 claimed (reap_expired_leases 40 claimed).1
a_reap = reap

others : Spared (1 ∷ []) 65 with_held (reap_expired_leases 40 claimed).1
unfolding other_claim a_reap
others = later (later start other_claim (omega arith) tt) a_reap (omega arith) tt

with_held-Apart : Pairs Apart (map record_of with_held)
unfolding new_job bytes_eq
with_held-Apart = (((refl, refl), tt), (tt, tt))

claimed_until_lease_ends_example :
    let after = (reap_expired_leases 40 claimed).1 in
    ((locked : Job → Bool) (worker_id : Text) (lease_seconds limit now : ℕ)
      → All
          (λ (c : Claim). c.erasure_id ≢ (1 ∷ []))
          (claim_batch locked worker_id lease_seconds limit now after).0)
    × ((now : ℕ)
        → 65 < now
        → In
            (record held { status = queued; leased_by = none; lease_expires_at = none })
            (reap_expired_leases now after).1)
unfolding new_job
claimed_until_lease_ends_example =
    claimed_until_lease_ends held 65 with_held _ (refl, refl) with_held-Apart (inl refl) others

claim_batch-IsHeld_example :
    All
      (λ (c : Claim).
        (j held : Job) × (c
          ≡ record { erasure_id = j.erasure_id; subject_ref = j.subject_ref; shard = j.shard })
        × In j table
        × In held (claim_batch nobody (1 ∷ []) 60 2 5 table).1
        × (held ≡ record j {
          status = processing;
          leased_by = some (1 ∷ []);
          lease_expires_at = some 65;
          attempts = j.attempts + 1;
        }))
      (claim_batch nobody (1 ∷ []) 60 2 5 table).0
claim_batch-IsHeld_example = claim_batch-IsHeld nobody (1 ∷ []) 60 2 5 table
