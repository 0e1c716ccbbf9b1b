-- ===== src/Jobs/Holding.antt =====
-- What a claim writes: the worker holds the rows of the jobs that it is given.
use unlearn_shield.Prelude.{
  ℕ, ◌+◌, ◌≡◌, refl, some, inl, inr, Bool, true, List, [], ◌∷◌, All, All-map, All-zip, All-keep,
  All-keep_test, In, if◌then◌else◌,
}
use unlearn_shield.Prelude.Sort.{All-sort_by}
use unlearn_shield.Python.Bytes.{Text, mem}
use unlearn_shield.Jobs.Table.{Job, processing}
use unlearn_shield.Jobs.Queue.{Claim, claim_of, claim_batch, chosen_ids, lease, by_shard}
use unlearn_shield.Jobs.Claims.{All-of_map}
use unlearn_shield.Jobs.Recovery.{In-map_to}

rows_In : (jobs : List Job) → All (λ j. In j jobs) jobs
rows_In [] = tt
rows_In (j ∷ jobs) = (inl refl, All-map _ _ jobs (λ k m. inr m) (rows_In jobs))

if_true : (b : Bool) (f : Job → Job) (j : Job) → b ≡ true → (if b then f j else j) ≡ f j
if_true b f j e = rw e refl

-- Every claim is of a row of the table, and in the new table that row is held until the lease ends
-- by the worker, with one attempt more and all else as it was.
pub claim_batch-IsHeld :
    (locked : Job → Bool) (worker_id : Text) (lease_seconds limit now : ℕ) (jobs : List Job)
    → let outcome = claim_batch locked worker_id lease_seconds limit now jobs in
      All
        (λ (c : Claim).
          (j held : Job) × (c
            ≡ record { erasure_id = j.erasure_id; subject_ref = j.subject_ref; shard = j.shard })
          × In j jobs
          × In held outcome.1
          × (held ≡ record j {
            status = processing;
            leased_by = some worker_id;
            lease_expires_at = some (now + lease_seconds);
            attempts = j.attempts + 1;
          }))
        outcome.0
unfolding claim_batch
claim_batch-IsHeld locked worker_id lease_seconds limit now jobs =
    let chosen : Job → Bool = λ j. mem j.erasure_id (chosen_ids locked limit jobs) in
    let taken = lease worker_id (now + lease_seconds) in
    All-sort_by by_shard _ _ (
      All-of_map _ claim_of _ (
        All-map (λ j. In j jobs × (chosen j ≡ true)) _ _
          (λ j p. (
            j,
            taken j,
            refl,
            p.0,
            In-map_to _ j (taken j) jobs (if_true (chosen j) taken j p.1) p.0,
            refl,
          ))
          (All-zip _ _ _ (All-keep (λ j. In j jobs) chosen jobs (rows_In jobs))
            (All-keep_test chosen jobs))))
