-- ===== src/Jobs/Claims.antt =====
-- What a claim gives a worker: work that no other worker was given, the most urgent first, and
-- work that comes back if the worker dies.
use mathlib.Core.List.{Perm}
use unlearn_shield.Prelude.{
  ℕ, ◌+◌, ◌≤◌, ◌≡◌, ◌≢◌, refl, subst, some, inl, inr, Bool, true, false, List, [], ◌∷◌, ◌++◌, map,
  keep, take, drop, length, if◌then◌else◌, All, All-map, All-keep, All-zip, All-keep_test, All-take,
  length-take_le, sym, Pairs-take-drop, take-append-drop, Bool-cases, arith,
}
use unlearn_shield.Prelude.Sort.{
  sort_by, sort_by-perm, sort_by-IsSorted, All-sort_by, IsOrder, IsSorted,
}
use unlearn_shield.Python.Bytes.{Text, mem, bytes_eq, bytes_eq-eq}
use unlearn_shield.Jobs.Table.{Job, processing, is_queued}
use unlearn_shield.Jobs.Queue.{
  Claim, claim_of, lease, by_shard, by_shard_deadline, eligible, candidates, chosen_ids,
  claim_batch,
}

pub All-of_map {ℓ} :
    {A B : Type ℓ} (P : B → Type 0) (f : A → B) (xs : List A)
    → All (λ x. P (f x)) xs
    → All P (map f xs)
All-of_map P f [] h = tt
All-of_map P f (x ∷ xs) h = (h.0, All-of_map P f xs h.1)

map-All {ℓ} :
    {A B : Type ℓ} (P : B → Type 0) (f : A → B)
    → ((x : A) → P (f x))
    → (xs : List A) → All P (map f xs)
map-All P f h [] = tt
map-All P f h (x ∷ xs) = (h x, map-All P f h xs)

pub mem_of_All : (P : Text → Type 0) (t : Text) (xs : List Text) → All P xs → mem t xs ≡ true → P t
unfolding mem
mem_of_All P t [] h e = absurd (cc e)
mem_of_All P t (x ∷ xs) h e = elim (Bool-cases (bytes_eq t x)) [
  | inl same ↦ rw (bytes_eq-eq t x same) h.0
  | inr differ ↦ mem_of_All P t xs h.1 (ground arith)
]

by_shard_deadline-IsOrder : IsOrder by_shard_deadline
unfolding by_shard_deadline
by_shard_deadline-IsOrder = record {
  trans = λ x y z p q. ground arith;
  total = λ x y p. ground arith;
}

by_shard-IsOrder : IsOrder by_shard
unfolding by_shard
by_shard-IsOrder = record { trans = λ x y z p q. ground arith; total = λ x y p. ground arith }

-- What holds of the id of every queued row holds of every id that is chosen.
pub chosen_ids-All :
    (P : Text → Type 0) (locked : Job → Bool) (limit : ℕ) (jobs : List Job)
    → All (λ (j : Job). is_queued j.status ≡ true → P j.erasure_id) jobs
    → All P (chosen_ids locked limit jobs)
unfolding chosen_ids candidates eligible
chosen_ids-All P locked limit jobs h = All-of_map P _ _ (
    All-take _ limit _ (
      All-sort_by by_shard_deadline _ _ (
        All-map _ _ _ (λ (j : Job) p. p.0 (ground (arith, p.1)))
          (All-zip _ _ _ (All-keep _ _ jobs h) (All-keep_test (eligible locked) jobs)))))

module _ (locked : Job → Bool) (worker_id : Text) (lease_seconds limit now : ℕ)
    (jobs : List Job) where
  -- The claims are rows that were chosen.
  pub claims_chosen :
      All
        (λ (c : Claim). mem c.erasure_id (chosen_ids locked limit jobs) ≡ true)
        (claim_batch locked worker_id lease_seconds limit now jobs).0
  unfolding claim_batch
  claims_chosen = All-sort_by by_shard _ _ (
      All-of_map _ claim_of _
        (All-keep_test (λ (j : Job). mem j.erasure_id (chosen_ids locked limit jobs)) jobs))

  -- A row of the new table that is still queued was not chosen.
  queued_not_chosen :
      All
        (λ (j : Job).
          is_queued j.status ≡ true → mem j.erasure_id (chosen_ids locked limit jobs) ≡ false)
        (claim_batch locked worker_id lease_seconds limit now jobs).1
  unfolding claim_batch
  queued_not_chosen =
      map-All _
        (λ (j : Job).
          if mem j.erasure_id (chosen_ids locked limit jobs)
          then lease worker_id (now + lease_seconds) j
          else j)
        (λ j. elim (Bool-cases (mem j.erasure_id (chosen_ids locked limit jobs))) [
          | inl e ↦ rw e (λ q. absurd (cc q))
          | inr e ↦ rw e (λ q. e)
        ])
        jobs

-- Two claims in a row, by whatever workers, limits and times and with whatever rows locked, never
-- give the same job twice.
pub claim_batch_exclusive :
    (locked locked' : Job → Bool)
    → (worker_id worker_id' : Text) → (lease_seconds lease_seconds' limit limit' now now' : ℕ)
    → (jobs : List Job)
    → let first = claim_batch locked worker_id lease_seconds limit now jobs in
      let second = claim_batch locked' worker_id' lease_seconds' limit' now' first.1 in
      All (λ (a : Claim). All (λ (b : Claim). a.erasure_id ≢ b.erasure_id) second.0) first.0
claim_batch_exclusive locked locked' worker_id worker_id' lease_seconds lease_seconds' limit limit'
      now now' jobs =
    let taken = chosen_ids locked limit jobs in
    let table = (claim_batch locked worker_id lease_seconds limit now jobs).1 in
    let fresh =
      chosen_ids-All (λ t. mem t taken ≡ false) locked' limit' table
        (queued_not_chosen locked worker_id lease_seconds limit now jobs) in
    let later = claims_chosen locked' worker_id' lease_seconds' limit' now' table in
    All-map (λ (a : Claim). mem a.erasure_id taken ≡ true)
      (λ (a : Claim).
        All (λ (b : Claim). a.erasure_id ≢ b.erasure_id)
          (claim_batch locked' worker_id' lease_seconds' limit' now' table).0)
      _
      (λ a p.
        All-map (λ (b : Claim). mem b.erasure_id (chosen_ids locked' limit' table) ≡ true)
          (λ (b : Claim). a.erasure_id ≢ b.erasure_id) _
          (λ b q e.
            absurd (cc (p, e, mem_of_All (λ t. mem t taken ≡ false) b.erasure_id _ fresh q)))
          later)
      (claims_chosen locked worker_id lease_seconds limit now jobs)

-- There are rows, at most `limit`, that are queued and unlocked and stand by shard and deadline in
-- front of all other such rows. What a claim returns is, sorted by shard, the rows with the ids of
-- those; and it writes a lease into the rows with those ids and leaves the others as they are.
pub claim_batch_urgent :
    (locked : Job → Bool)
    → (worker_id : Text) → (lease_seconds limit now : ℕ) → (jobs : List Job)
    → let outcome = claim_batch locked worker_id lease_seconds limit now jobs in
      (picked left : List Job) × Perm (picked ++ left) (keep (eligible locked) jobs)
      × (length picked ≤ limit)
      × All (λ a. All (λ b. by_shard_deadline a b ≡ true) left) picked
      × IsSorted by_shard outcome.0
      × Perm outcome.0 (
          map claim_of (keep (λ j. mem j.erasure_id (map (λ (k : Job). k.erasure_id) picked)) jobs))
      × (outcome.1
          ≡ map
              (λ (j : Job).
                if mem j.erasure_id (map (λ (k : Job). k.erasure_id) picked)
                then record j {
                  status = processing;
                  leased_by = some worker_id;
                  lease_expires_at = some (now + lease_seconds);
                  attempts = j.attempts + 1;
                }
                else j)
              jobs)
unfolding claim_batch chosen_ids candidates
claim_batch_urgent locked worker_id lease_seconds limit now jobs =
    let rows = sort_by by_shard_deadline (keep (eligible locked) jobs) in
    (
      take limit rows,
      drop limit rows,
      subst (λ l. Perm l (keep (eligible locked) jobs)) (sym (take-append-drop limit rows))
          (sort_by-perm by_shard_deadline (keep (eligible locked) jobs)),
      length-take_le limit rows,
      Pairs-take-drop _ limit rows (sort_by-IsSorted by_shard_deadline by_shard_deadline-IsOrder _),
      sort_by-IsSorted by_shard by_shard-IsOrder _,
      sort_by-perm by_shard _,
      refl,
    )
