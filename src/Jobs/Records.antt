-- ===== src/Jobs/Records.antt =====
-- What the table records of a request stays as it was written.
use mathlib.Core.List.{append-nil, append_assoc}
use unlearn_shield.Prelude.{
  ℕ, ◌≡◌, refl, sym, ap, ◌∙◌, inl, inr, ◌⊎◌, Bool, true, false, ◌&&◌, List, [], ◌∷◌, ◌++◌, none,
  map, All, Pairs, All-append, All-zip, if◌then◌else◌,
}
use unlearn_shield.Python.Bytes.{Text, bytes_eq}
use unlearn_shield.Jobs.Table.{Job, Reason}
use unlearn_shield.Jobs.Queue.{reap_expired_leases, claim_batch, is_expired, requeue, lease}
use unlearn_shield.Jobs.Intake.{Request, find_request, of_request, id_taken, new_job}
use unlearn_shield.Jobs.Outcome.{mark_failed, mark_done, fail, finish}
use unlearn_shield.Jobs.Requests.{find_request-none, id_taken-false, insert_or_get-cases}
use unlearn_shield.Jobs.Steps.{Step, Steps, reap, claim, submit, give_up, complete, here, next}

-- The columns that no statement updates.
pub record Record : Type 0 where
  pub erasure_id : Text
  pub subject_ref : Text
  pub reason : Reason
  pub shard : ℕ
  pub idempotency_key : Text
  pub sla_deadline : ℕ
  pub requested_by : Text
  pub created_at : ℕ

abbrev pub record_of : Job → Record
record_of j = record {
  erasure_id = j.erasure_id;
  subject_ref = j.subject_ref;
  reason = j.reason;
  shard = j.shard;
  idempotency_key = j.idempotency_key;
  sla_deadline = j.sla_deadline;
  requested_by = j.requested_by;
  created_at = j.created_at;
}

-- The primary key and the unique constraint tell two records apart.
abbrev pub Apart : Record → Record → Type 0
Apart a b =
    (bytes_eq a.erasure_id b.erasure_id ≡ false)
    × ((bytes_eq a.requested_by b.requested_by && bytes_eq a.idempotency_key b.idempotency_key)
        ≡ false)

map_same :
    (f : Job → Job)
    → ((j : Job) → record_of (f j) ≡ record_of j)
    → (jobs : List Job) → map record_of (map f jobs) ≡ map record_of jobs
map_same f h [] = refl
map_same f h (j ∷ jobs) = rw (h j, map_same f h jobs)

if_same :
    (b : Bool) (f : Job → Job) (j : Job)
    → record_of (f j) ≡ record_of j
    → record_of (if b then f j else j) ≡ record_of j
if_same true f j h = h
if_same false f j h = refl

-- What a request adds that is told apart from all the table holds.
abbrev Adds : List Record → List Record → Type 0
Adds old new = (new ≡ old) ⊎ ((r : Record) × (new ≡ old ++ (r ∷ [])) × All (λ o. Apart o r) old)

map_append : (xs ys : List Job) → map record_of (xs ++ ys) ≡ map record_of xs ++ map record_of ys
map_append [] ys = refl
map_append (x ∷ xs) ys = rw (map_append xs ys)

All-record_of :
    (P : Record → Type 0) (Q : Job → Type 0) (jobs : List Job)
    → ((j : Job) → Q j → P (record_of j))
    → All Q jobs
    → All P (map record_of jobs)
All-record_of P Q [] f h = tt
All-record_of P Q (j ∷ jobs) f h = (f j h.0, All-record_of P Q jobs f h.1)

submit-Adds :
    (id : Text) (now : ℕ) (r : Request) (jobs after : List Job)
    → (after ≡ jobs)
      ⊎ ((after ≡ jobs ++ (new_job id now r ∷ []))
          × (find_request r.requested_by r.idempotency_key jobs ≡ none)
          × (id_taken id jobs ≡ false))
    → Adds (map record_of jobs) (map record_of after)
unfolding of_request new_job
submit-Adds id now r jobs after (inl e) = inl (ap (map record_of) e)
submit-Adds id now r jobs after (inr (e, n, t)) = inr (
  record_of (new_job id now r),
  ap (map record_of) e ∙ map_append jobs (new_job id now r ∷ []),
  All-record_of _ _ jobs (λ j h. h)
      (All-zip _ _ jobs (id_taken-false id jobs t) (find_request-none _ _ jobs n)),
)

Step-Adds :
    {now : ℕ} {jobs after : List Job}
    → Step now jobs after
    → Adds (map record_of jobs) (map record_of after)
unfolding reap_expired_leases claim_batch mark_failed mark_done
Step-Adds reap = inl (map_same _ (λ j. if_same (is_expired _ j) requeue j refl) _)
Step-Adds (claim locked worker_id lease_seconds limit) =
    inl (map_same _ (λ j. if_same _ (lease worker_id _) j refl) _)
Step-Adds (submit id r e) = submit-Adds id _ r _ _ (insert_or_get-cases id _ r _ _ _ _ e)
Step-Adds (give_up ids error) = inl (map_same _ (λ j. if_same _ (fail error) j refl) _)
Step-Adds (complete id) = inl (map_same _ (λ j. if_same _ (finish _) j refl) _)

Pairs-snoc :
    (old : List Record) (r : Record)
    → Pairs Apart old
    → All (λ o. Apart o r) old
    → Pairs Apart (old ++ (r ∷ []))
Pairs-snoc [] r h k = (tt, tt)
Pairs-snoc (o ∷ old) r h k =
    (All-append (Apart o) old (r ∷ []) h.0 (k.0, tt), Pairs-snoc old r h.1 k.1)

Adds-Pairs : (old new : List Record) → Adds old new → Pairs Apart old → Pairs Apart new
Adds-Pairs old new (inl e) h = rw e h
Adds-Pairs old new (inr (r, e, apart)) h = rw e (Pairs-snoc old r h apart)

Adds-prefix : (old new : List Record) → Adds old new → (more : List Record) × (new ≡ old ++ more)
Adds-prefix old new (inl e) = ([], e ∙ sym (append-nil old))
Adds-prefix old new (inr (r, e, apart)) = (r ∷ [], e)

-- Whatever statements run, at whatever times, every request that the table records stays in it, in
-- the same place and with the columns it was written with; and if the ids of the table were
-- distinct and no principal had used a key twice, that is so afterwards.
pub Steps-records :
    {jobs after : List Job}
    → Steps jobs after
    → Pairs Apart (map record_of jobs)
    → Pairs Apart (map record_of after)
      × (more : List Record) × (map record_of after ≡ map record_of jobs ++ more)
Steps-records here h = (h, [], sym (append-nil _))
Steps-records (next steps step) h =
    let before = Steps-records steps h in
    let last = Adds-prefix _ _ (Step-Adds step) in
    (
      Adds-Pairs _ _ (Step-Adds step) before.0,
      before.1 ++ last.0,
      last.1 ∙ (ap (λ l. l ++ last.0) before.2 ∙ append_assoc _ before.1 last.0),
    )
