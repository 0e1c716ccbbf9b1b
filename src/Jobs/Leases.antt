-- ===== src/Jobs/Leases.antt =====
-- Leases over time: a worker keeps what it claimed until its lease runs out, and no longer.
use unlearn_shield.Prelude.{
  ℕ, ◌≡◌, refl, inl, inr, ◌⊎◌, Bool, true, false, List, [], ◌∷◌, ◌++◌, Option, none, some, map, All,
  All-append, if◌then◌else◌,
}
use unlearn_shield.Python.Bytes.{Text}
use unlearn_shield.Jobs.Table.{Job, is_processing}
use unlearn_shield.Jobs.Queue.{reap_expired_leases, claim_batch, requeue, lease}
use unlearn_shield.Jobs.Intake.{Request, new_job, find_request, id_taken}
use unlearn_shield.Jobs.Outcome.{mark_failed, mark_done, fail, finish}
use unlearn_shield.Jobs.Requests.{insert_or_get-cases}
use unlearn_shield.Jobs.Steps.{Step, reap, claim, submit, give_up, complete}

abbrev is_set {ℓ} : {A : Type ℓ} → Option A → Bool
is_set none = false
is_set (some a) = true

-- A row has a holder and a lease exactly while it is being processed.
abbrev pub IsLease : Job → Type 0
IsLease j =
    (is_set j.leased_by ≡ is_processing j.status)
    × (is_set j.lease_expires_at ≡ is_processing j.status)

if_IsLease :
    (b : Bool) (f : Job → Job) (j : Job)
    → IsLease (f j)
    → IsLease j
    → IsLease (if b then f j else j)
if_IsLease true f j h k = h
if_IsLease false f j h k = k

map-IsLease :
    (f : Job → Job) (jobs : List Job)
    → ((j : Job) → IsLease j → IsLease (f j))
    → All IsLease jobs
    → All IsLease (map f jobs)
map-IsLease f [] h k = tt
map-IsLease f (j ∷ jobs) h k = (h j k.0, map-IsLease f jobs h k.1)

submit-IsLease :
    (id : Text) (now : ℕ) (r : Request) (jobs after : List Job)
    → (after ≡ jobs)
      ⊎ ((after ≡ jobs ++ (new_job id now r ∷ []))
          × (find_request r.requested_by r.idempotency_key jobs ≡ none)
          × (id_taken id jobs ≡ false))
    → All IsLease jobs
    → All IsLease after
unfolding new_job
submit-IsLease id now r jobs after (inl e) h = rw e h
submit-IsLease id now r jobs after (inr (e, _, _)) h =
    rw e (All-append IsLease jobs _ h ((refl, refl), tt))

-- Every statement keeps it that the rows being processed, and they alone, have a holder and a lease.
pub Step-IsLease :
    {now : ℕ} {jobs after : List Job} → Step now jobs after → All IsLease jobs → All IsLease after
unfolding reap_expired_leases claim_batch mark_failed mark_done
Step-IsLease reap h = map-IsLease _ _ (λ j. if_IsLease _ requeue j (refl, refl)) h
Step-IsLease (claim locked worker_id lease_seconds limit) h =
    map-IsLease _ _ (λ j. if_IsLease _ (lease worker_id _) j (refl, refl)) h
Step-IsLease (submit id r e) h = submit-IsLease id _ r _ _ (insert_or_get-cases id _ r _ _ _ _ e) h
Step-IsLease (give_up ids error) h =
    map-IsLease _ _ (λ j. if_IsLease _ (fail error) j (refl, refl)) h
Step-IsLease (complete id) h = map-IsLease _ _ (λ j. if_IsLease _ (finish _) j (refl, refl)) h
