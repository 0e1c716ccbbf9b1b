-- ===== src/Jobs/Recovery.antt =====
-- A job that a worker holds: nobody else is given it while the lease runs, and the first reap
-- afterwards puts it back.
use unlearn_shield.Prelude.{
  ℕ, ◌≤◌, ◌<◌, ◌≡◌, ◌≢◌, refl, sym, ap, ◌∙◌, subst, inl, inr, ◌⊎◌, Bool, true, false, List, [], ◌∷◌,
  ◌++◌, none, some, map, All, All-map, All-In, Pairs, In, if◌then◌else◌, Bool-cases, arith,
}
use unlearn_shield.Python.Bytes.{Text, mem, bytes_eq, bytes_eq_refl}
use unlearn_shield.Jobs.Table.{Job, queued, processing, is_queued}
use unlearn_shield.Jobs.Queue.{
  Claim, reap_expired_leases, claim_batch, chosen_ids, is_expired, lease_expired, requeue, lease,
}
use unlearn_shield.Jobs.Intake.{Request, new_job, find_request, id_taken}
use unlearn_shield.Jobs.Outcome.{mark_failed, mark_done, fail, finish}
use unlearn_shield.Jobs.Requests.{insert_or_get-cases}
use unlearn_shield.Jobs.Claims.{chosen_ids-All, mem_of_All, claims_chosen}
use unlearn_shield.Jobs.Records.{Record, Apart, record_of, Steps-records}
use unlearn_shield.Jobs.Steps.{Step, Steps, reap, claim, submit, give_up, complete, here, next}

-- The statement does not settle the job.
abbrev pub Spares : Text → {now : ℕ} → {jobs after : List Job} → Step now jobs after → Type 0
Spares id (give_up ids error) = mem id ids ≡ false
Spares id (complete other) = bytes_eq id other ≡ false
Spares id _ = Unit

-- Statements that run until `t` and spare the job.
pub data Spared (id : Text) (t : ℕ) (jobs : List Job) : List Job → Type 0 where
  start : Spared id t jobs jobs
  later :
      {now : ℕ} {between after : List Job}
      → Spared id t jobs between
      → (step : Step now between after) → now ≤ t
      → Spares id step
      → Spared id t jobs after

Spared-Steps :
    {id : Text} {t : ℕ} {jobs after : List Job} → Spared id t jobs after → Steps jobs after
Spared-Steps start = here
Spared-Steps (later before step le spares) = next (Spared-Steps before) step

-- A row with a lease until `t`.
abbrev pub IsHeld : ℕ → Job → Type 0
IsHeld t j = (j.status ≡ processing) × (j.lease_expires_at ≡ some t)

In-map : (f : Job → Job) (j : Job) (jobs : List Job) → f j ≡ j → In j jobs → In j (map f jobs)
In-map f j (k ∷ jobs) same (inl e) = inl (subst (λ x. j ≡ f x) e (sym same))
In-map f j (k ∷ jobs) same (inr m) = inr (In-map f j jobs same m)
In-map f j [] same m = m

In-append : (j : Job) (jobs more : List Job) → In j jobs → In j (jobs ++ more)
In-append j (k ∷ jobs) more (inl e) = inl e
In-append j (k ∷ jobs) more (inr m) = inr (In-append j jobs more m)
In-append j [] more m = absurd m

record-All :
    (P : Record → Type 0) (jobs : List Job)
    → All P (map record_of jobs)
    → All (λ j. P (record_of j)) jobs
record-All P [] h = tt
record-All P (j ∷ jobs) h = (h.0, record-All P jobs h.1)

-- No queued row has the id of a row that is held.
queued-Apart :
    (t : ℕ) (j : Job) (jobs : List Job)
    → IsHeld t j
    → Pairs Apart (map record_of jobs)
    → In j jobs
    → All (λ (k : Job). is_queued k.status ≡ true → k.erasure_id ≢ j.erasure_id) jobs
queued-Apart t j [] held apart m = tt
queued-Apart t j (k ∷ jobs) held apart (inl e) = (
  λ q _. absurd (cc (held.0, e, q)),
  All-map (λ (l : Job). Apart (record_of k) (record_of l)) _ jobs
      (λ l p _ same. absurd (cc (p.0, same, e, bytes_eq_refl l.erasure_id)))
      (record-All _ jobs apart.0),
)
queued-Apart t j (k ∷ jobs) held apart (inr m) =
    let here_apart =
      All-In (λ (l : Job). Apart (record_of k) (record_of l)) j jobs (record-All _ jobs apart.0)
        m in
    (
      λ _ same. absurd (cc (here_apart.0, same, bytes_eq_refl j.erasure_id)),
      queued-Apart t j jobs held apart.1 m,
    )

held_not_chosen :
    (t : ℕ) (j : Job) (jobs : List Job) (locked : Job → Bool) (limit : ℕ)
    → IsHeld t j
    → Pairs Apart (map record_of jobs)
    → In j jobs
    → mem j.erasure_id (chosen_ids locked limit jobs) ≡ false
held_not_chosen t j jobs locked limit held apart m =
    elim (Bool-cases (mem j.erasure_id (chosen_ids locked limit jobs))) [
      | inl e ↦ absurd (
          mem_of_All (λ s. s ≢ j.erasure_id) j.erasure_id _
            (chosen_ids-All _ locked limit jobs (queued-Apart t j jobs held apart m)) e refl)
      | inr e ↦ e
    ]

if_same : (b : Bool) (f : Job → Job) (j : Job) → b ≡ false → (if b then f j else j) ≡ j
if_same b f j e = rw e refl

held_not_expired : (now t : ℕ) (j : Job) → IsHeld t j → now ≤ t → is_expired now j ≡ false
unfolding is_expired lease_expired
held_not_expired now t j held le = rw (held.0, held.1) (ground (arith, le))

held_expired : (now t : ℕ) (j : Job) → IsHeld t j → t < now → is_expired now j ≡ true
unfolding is_expired lease_expired
held_expired now t j held lt = rw (held.0, held.1) (ground (arith, lt))

submit_keeps :
    (id : Text) (now : ℕ) (r : Request) (j : Job) (jobs after : List Job)
    → (after ≡ jobs)
      ⊎ ((after ≡ jobs ++ (new_job id now r ∷ []))
          × (find_request r.requested_by r.idempotency_key jobs ≡ none)
          × (id_taken id jobs ≡ false))
    → In j jobs
    → In j after
submit_keeps id now r j jobs after (inl e) m = rw e m
submit_keeps id now r j jobs after (inr (e, _, _)) m = rw e (In-append j jobs _ m)

step_keeps :
    {now t : ℕ} {jobs after : List Job} (j : Job) (step : Step now jobs after)
    → IsHeld t j
    → now ≤ t
    → Spares j.erasure_id step
    → Pairs Apart (map record_of jobs)
    → In j jobs
    → In j after
unfolding reap_expired_leases claim_batch mark_failed mark_done
step_keeps j reap held le spares apart m =
    In-map _ j _ (if_same _ requeue j (held_not_expired _ _ j held le)) m
step_keeps j (claim locked worker_id lease_seconds limit) held le spares apart m =
    In-map _ j _ (if_same _ (lease worker_id _) j (held_not_chosen _ j _ locked limit held apart m))
      m
step_keeps j (submit id r e) held le spares apart m =
    submit_keeps id _ r j _ _ (insert_or_get-cases id _ r _ _ _ _ e) m
step_keeps j (give_up ids error) held le spares apart m =
    In-map _ j _ (if_same _ (fail error) j spares) m
step_keeps j (complete id) held le spares apart m = In-map _ j _ (if_same _ (finish _) j spares) m

-- In a table of distinct ids and keys, a row that is held until `t` stays as it is under all
-- statements that run until `t` and do not settle its job.
pub Spared-keeps :
    {id : Text} {t : ℕ} {jobs after : List Job} (j : Job)
    → j.erasure_id ≡ id
    → IsHeld t j
    → Pairs Apart (map record_of jobs)
    → In j jobs
    → Spared id t jobs after
    → In j after
Spared-keeps j same held apart m start = m
Spared-keeps j same held apart m (later before step le spares) =
    step_keeps j step held le (rw same spares) (Steps-records (Spared-Steps before) apart).0
      (Spared-keeps j same held apart m before)

pub In-map_to :
    (f : Job → Job) (j k : Job) (jobs : List Job) → f j ≡ k → In j jobs → In k (map f jobs)
In-map_to f j k (l ∷ jobs) same (inl e) = inl (sym same ∙ ap f e)
In-map_to f j k (l ∷ jobs) same (inr m) = inr (In-map_to f j k jobs same m)
In-map_to f j k [] same m = m

-- In a table of distinct ids and keys, take a row that is held until `t` and any statements that run
-- until `t` and do not settle its job. Then no claim gives the job to a worker, and a reap at any later
-- time than `t` puts the row back in the queue, with its attempts kept.
pub claimed_until_lease_ends :
    (j : Job) (t : ℕ) (jobs after : List Job)
    → IsHeld t j
    → Pairs Apart (map record_of jobs)
    → In j jobs
    → Spared j.erasure_id t jobs after
    → ((locked : Job → Bool) (worker_id : Text) (lease_seconds limit now : ℕ)
        → All
            (λ (c : Claim). c.erasure_id ≢ j.erasure_id)
            (claim_batch locked worker_id lease_seconds limit now after).0)
      × ((now : ℕ)
          → t < now
          → In
              (record j { status = queued; leased_by = none; lease_expires_at = none })
              (reap_expired_leases now after).1)
unfolding reap_expired_leases
claimed_until_lease_ends j t jobs after held apart m spared =
    let still = Spared-keeps j refl held apart m spared in
    let apart' = (Steps-records (Spared-Steps spared) apart).0 in
    (
      (λ locked worker_id lease_seconds limit now.
          All-map (λ (c : Claim). mem c.erasure_id (chosen_ids locked limit after) ≡ true) _ _
            (λ c p same.
              absurd (cc (p, same, held_not_chosen t j after locked limit held apart' still)))
            (claims_chosen locked worker_id lease_seconds limit now after)),
      λ now lt. In-map_to _ j (requeue j) after (rw (held_expired now t j held lt) refl) still,
    )
