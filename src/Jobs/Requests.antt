-- ===== src/Jobs/Requests.antt =====
-- Branch by branch, what gateway/idempotency.py's `insert_or_get` does.
use unlearn_shield.Prelude.{
  ℕ, ◌≡◌, refl, inl, inr, ◌⊎◌, Bool, true, false, List, [], ◌∷◌, ◌++◌, none, some, All, Bool-cases,
  Option-cases, arith,
}
use unlearn_shield.Prelude.Result.{ok, err, db_error}
use unlearn_shield.Python.Bytes.{Text, bytes_eq, bytes_eq_refl}
use unlearn_shield.Jobs.Table.{Job}
use unlearn_shield.Jobs.Intake.{Request, insert_or_get, find_request, of_request, id_taken, new_job}

pub find_request-none :
    (p k : Text) (jobs : List Job)
    → find_request p k jobs ≡ none
    → All (λ j. of_request p k j ≡ false) jobs
unfolding find_request
find_request-none p k [] e = tt
find_request-none p k (j ∷ jobs) e = elim (Bool-cases (of_request p k j)) [
  | inl t ↦ absurd (ground (arith, t, e))
  | inr t ↦ (t, find_request-none p k jobs (rw t at e))
]

pub id_taken-false :
    (id : Text) (jobs : List Job)
    → id_taken id jobs ≡ false
    → All (λ (j : Job). bytes_eq j.erasure_id id ≡ false) jobs
unfolding id_taken
id_taken-false id [] e = tt
id_taken-false id (j ∷ jobs) e = elim (Bool-cases (bytes_eq j.erasure_id id)) [
  | inl t ↦ absurd (ground (arith, t, e))
  | inr t ↦ (t, id_taken-false id jobs (rw t at e))
]

module _ (id : Text) (now : ℕ) (r : Request) (jobs : List Job) where
  insert_or_get-new :
      find_request r.requested_by r.idempotency_key jobs ≡ none
      → id_taken id jobs ≡ false
      → insert_or_get id now r jobs ≡ ok (id, true, jobs ++ (new_job id now r ∷ []))
  unfolding insert_or_get
  insert_or_get-new n t = rw (n, t, insert_or_get) refl

  insert_or_get-taken :
      find_request r.requested_by r.idempotency_key jobs ≡ none
      → id_taken id jobs ≡ true
      → insert_or_get id now r jobs ≡ err db_error
  unfolding insert_or_get
  insert_or_get-taken n t = rw (n, t, insert_or_get) refl

  insert_or_get-old :
      (j : Job)
      → find_request r.requested_by r.idempotency_key jobs ≡ some j
      → insert_or_get id now r jobs ≡ ok (j.erasure_id, false, jobs)
  unfolding insert_or_get
  insert_or_get-old j s = rw (s, insert_or_get, s) refl

  -- What a request that succeeds does to the table.
  pub insert_or_get-cases :
      (reply : Text) (created : Bool) (after : List Job)
      → insert_or_get id now r jobs ≡ ok (reply, created, after)
      → (after ≡ jobs)
        ⊎ ((after ≡ jobs ++ (new_job id now r ∷ []))
            × (find_request r.requested_by r.idempotency_key jobs ≡ none)
            × (id_taken id jobs ≡ false))
  insert_or_get-cases reply created after e =
      elim (Option-cases (find_request r.requested_by r.idempotency_key jobs)) [
        | inl n ↦ elim (Bool-cases (id_taken id jobs)) [
          | inl t ↦ absurd (cc (e, insert_or_get-taken n t))
          | inr t ↦ inr (cc (e, insert_or_get-new n t), n, t)
        ]
        | inr s ↦ inl (cc (e, insert_or_get-old s.0 s.1))
      ]

-- The row of a request is found in a table that it ends.
find_request-append :
    (r : Request) (id : Text) (now : ℕ) (jobs : List Job)
    → find_request r.requested_by r.idempotency_key jobs ≡ none
    → find_request r.requested_by r.idempotency_key (jobs ++ (new_job id now r ∷ []))
      ≡ some (new_job id now r)
unfolding find_request of_request new_job
find_request-append r id now [] n =
    rw (bytes_eq_refl r.requested_by, bytes_eq_refl r.idempotency_key) refl
find_request-append r id now (j ∷ jobs) n =
    elim (Bool-cases (of_request r.requested_by r.idempotency_key j)) [
      | inl t ↦ absurd (ground (arith, t, n))
      | inr t ↦ rw t (find_request-append r id now jobs (rw t at n))
    ]

-- A request whose new id is not in the table is answered; and when the same principal sends the
-- same key again, whatever the rest of the request and at whatever time, the second answer is the
-- same id, nothing is created and the table is as it was.
pub insert_or_get_idempotent :
    (id id' : Text) (now now' : ℕ) (r r' : Request) (jobs : List Job)
    → id_taken id jobs ≡ false
    → r'.requested_by ≡ r.requested_by
    → r'.idempotency_key ≡ r.idempotency_key
    → (reply : Text) × (created : Bool) × (after : List Job) × (insert_or_get id now r jobs
        ≡ ok (reply, created, after))
      × (insert_or_get id' now' r' after ≡ ok (reply, false, after))
unfolding new_job
insert_or_get_idempotent id id' now now' r r' jobs fresh p k =
    elim (Option-cases (find_request r.requested_by r.idempotency_key jobs)) [
      | inl n ↦ (
        id,
        true,
        jobs ++ (new_job id now r ∷ []),
        insert_or_get-new id now r jobs n fresh,
        insert_or_get-old id' now' r' _ (new_job id now r)
            (rw (p, k) (find_request-append r id now jobs n)),
      )
      | inr s ↦ (
        (s.0).erasure_id,
        false,
        jobs,
        insert_or_get-old id now r jobs s.0 s.1,
        insert_or_get-old id' now' r' jobs s.0 (rw (p, k) s.1),
      )
    ]
