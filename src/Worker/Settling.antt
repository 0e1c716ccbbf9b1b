-- ===== src/Worker/Settling.antt =====
-- worker/jobs.py: what a round of `process_claimed` leaves of its jobs when it returns.
use unlearn_shield.Prelude.{
  ℕ, ◌≡◌, refl, sym, ap, subst, ◌∙◌, inl, inr, ◌⊎◌, true, false, List, [], ◌∷◌, none, map, All, In,
  Bool-cases,
}
use unlearn_shield.Prelude.Result.{Result, ok, err, Result-cases, ok_injective}
use unlearn_shield.Python.Bytes.{Text, bytes_eq, bytes_eq-eq, mem, In-mem}
use unlearn_shield.Jobs.Table.{Job, is_processing}
use unlearn_shield.Jobs.Queue.{Claim}
use unlearn_shield.Jobs.Outcome.{mark_failed, mark_done}
use unlearn_shield.Worker.Run.{Database, World, Run, pass, then_run, outcome_of, execute, lift}
use unlearn_shield.Worker.Process.{
  Outcome, Engine, Settings, record_job, record_jobs, manifest_at, signature_of, insert_manifest,
  has_manifest, fail_group, promote_shard,
}
use unlearn_shield.Worker.Groups.{
  spot_checks, record_group, after_record, after_rebuild, process_group,
}
use unlearn_shield.Worker.Untouched.{spot_checks-Keeps}

-- No worker holds the job any more.
abbrev pub IsSettled : Job → Type 0
IsSettled j = (is_processing j.status ≡ false) × (j.leased_by ≡ none) × (j.lease_expires_at ≡ none)

abbrev pub SettledAt : Text → List Job → Type 0
SettledAt id = All (λ (j : Job). bytes_eq j.erasure_id id ≡ true → IsSettled j)

mark_done-SettledAt : (id : Text) (now : ℕ) (jobs : List Job) → SettledAt id (mark_done id now jobs)
unfolding mark_done
mark_done-SettledAt id now [] = tt
mark_done-SettledAt id now (j ∷ jobs) = elim (Bool-cases (bytes_eq j.erasure_id id)) [
  | inl e ↦ rw e ((λ same. (refl, refl, refl)), mark_done-SettledAt id now jobs)
  | inr e ↦ rw e ((λ same. absurd (cc (e, same))), mark_done-SettledAt id now jobs)
]

SettledAt-mark_done :
    (id other : Text) (now : ℕ) (jobs : List Job)
    → SettledAt id jobs
    → SettledAt id (mark_done other now jobs)
unfolding mark_done
SettledAt-mark_done id other now [] h = tt
SettledAt-mark_done id other now (j ∷ jobs) h = elim (Bool-cases (bytes_eq j.erasure_id other)) [
  | inl e ↦ rw e ((λ same. (refl, refl, refl)), SettledAt-mark_done id other now jobs h.1)
  | inr e ↦ rw e (h.0, SettledAt-mark_done id other now jobs h.1)
]

mark_failed-SettledAt :
    (id : Text) (ids : List Text) (error : Text) (jobs : List Job)
    → In id ids
    → SettledAt id (mark_failed ids error jobs)
unfolding mark_failed
mark_failed-SettledAt id ids error [] m = tt
mark_failed-SettledAt id ids error (j ∷ jobs) m = elim (Bool-cases (mem j.erasure_id ids)) [
  | inl e ↦ rw e ((λ same. (refl, refl, refl)), mark_failed-SettledAt id ids error jobs m)
  | inr e ↦ rw e (
    (λ same.
        absurd
          (cc (e, subst (λ x. mem x ids ≡ true) (sym (bytes_eq-eq _ _ same)) (In-mem id ids m)))),
    mark_failed-SettledAt id ids error jobs m,
  )
]

module _ {S Replay Score : Type 0} (engine : Engine S Replay Score) (settings : Settings) where
  -- A statement that has run, of a transaction that is not aborted.
  execute-ok :
      (statement : Database Score → Result (Database Score)) (w w' : World S Score)
      → execute statement w ≡ (w', ok tt)
      → (db : Database Score) × (statement w.db ≡ ok db) × (w'.db ≡ db)
  unfolding execute outcome_of
  execute-ok statement w w' e = elim (Bool-cases w.aborted) [
    | inl f ↦ absurd (cc (rw (execute, f) at e))
    | inr f ↦ elim (Result-cases (statement w.db)) [
      | inl (x, g) ↦ absurd (cc (rw (execute, f, g) at e))
      | inr (db, g) ↦ (
        db,
        g,
        ap (λ (p : World S Score × Result {0} Unit). p.0.db) (sym (rw (execute, f, g) at e)),
      )
    ]
  ]

  then_run-ok :
      {A B : Type 0} (m : World S Score × Result A) (f : A → Run S Score B) (w' : World S Score)
      (b : B)
      → then_run m f ≡ (w', ok b)
      → (w : World S Score) × (a : A) × (m ≡ (w, ok a)) × (f a w ≡ (w', ok b))
  unfolding then_run
  then_run-ok (w, err e) f w' b h = absurd (cc h)
  then_run-ok (w, ok a) f w' b h = (w, a, refl, h)

  fail_group-SettledAt :
      (group : List Claim) (error : Text) (w w' : World S Score) (id : Text)
      → fail_group engine settings group error w ≡ (w', ok tt)
      → In id (map (λ (j : Claim). j.erasure_id) group)
      → SettledAt id w'.db.jobs
  unfolding fail_group
  fail_group-SettledAt group error w w' id e m =
      let (db, f, same) = execute-ok _ w w' e in
      rw (same, sym (ap (λ (d : Database Score). d.jobs) (ok_injective f)))
        (mark_failed-SettledAt id _ error w.db.jobs m)

  record_job-jobs :
      (result : Outcome Replay) (job : Claim) (w w' : World S Score)
      → record_job engine settings result job w ≡ (w', ok tt)
      → w'.db.jobs ≡ mark_done job.erasure_id settings.now w.db.jobs
  unfolding record_job lift insert_manifest then_run execute outcome_of
  record_job-jobs result job w w' e =
      elim (Result-cases (manifest_at result.manifests job.subject_ref)) [
        | inl (x, f) ↦ absurd (cc (rw (record_job, f) at e))
        | inr (m, f) ↦ elim (Result-cases (signature_of m)) [
          | inl (x, g) ↦ absurd (cc (rw (record_job, f, g) at e))
          | inr (signature, g) ↦ elim (Bool-cases w.aborted) [
            | inl h ↦ absurd (cc (rw (record_job, f, g, h) at e))
            | inr h ↦ elim (Bool-cases (has_manifest job.erasure_id w.db.manifests)) [
              | inl k ↦ absurd (cc (rw (record_job, f, g, h, k) at e))
              | inr k ↦ sym (
                  ap (λ (p : World S Score × Result {0} Unit). p.0.db.jobs)
                    (rw (record_job, f, g, h, k) at e))
            ]
          ]
        ]
      ]

  record_jobs_cons :
      (result : Outcome Replay) (job : Claim) (group : List Claim) (w : World S Score)
      → record_jobs engine settings result (job ∷ group) w
        ≡ then_run
            (record_job engine settings result job w)
            (λ _. record_jobs engine settings result group)
  unfolding record_jobs
  record_jobs_cons result job group w = refl

  record_jobs-SettledAt :
      (result : Outcome Replay) (group : List Claim) (w w' : World S Score) (id : Text)
      → record_jobs engine settings result group w ≡ (w', ok tt)
      → SettledAt id w.db.jobs ⊎ In id (map (λ (j : Claim). j.erasure_id) group)
      → SettledAt id w'.db.jobs
  unfolding record_jobs pass
  record_jobs-SettledAt result [] w w' id e (inl h) =
      let same : w ≡ w' = ap (λ (p : World S Score × Result {0} Unit). p.0) e in
      subst (λ (x : World S Score). SettledAt id x.db.jobs) same h
  record_jobs-SettledAt result [] w w' id e (inr m) = absurd m
  record_jobs-SettledAt result (job ∷ group) w w' id e h =
      let (w1, _, f, rest) =
        then_run-ok (record_job engine settings result job w)
          (λ _. record_jobs engine settings result group) w' tt
          (sym (record_jobs_cons result job group w) ∙ e) in
      let q = record_job-jobs result job w w1 f in
      elim h [
        | inl settled ↦
            record_jobs-SettledAt result group w1 w' id rest
              (inl (rw q (SettledAt-mark_done id job.erasure_id settings.now w.db.jobs settled)))
        | inr (inl same) ↦
            record_jobs-SettledAt result group w1 w' id rest
              (inl (rw (q, same) (mark_done-SettledAt job.erasure_id settings.now w.db.jobs)))
        | inr (inr m) ↦ record_jobs-SettledAt result group w1 w' id rest (inr m)
      ]

  after_record-SettledAt :
      (shard : ℕ) (group : List Claim) (result : Outcome Replay)
      (p : World S Score × Result {0} Unit) (w' : World S Score) (id : Text)
      → (p.1 ≡ ok tt → SettledAt id p.0.db.jobs)
      → after_record engine settings shard group result p ≡ (w', ok tt)
      → In id (map (λ (j : Claim). j.erasure_id) group)
      → SettledAt id w'.db.jobs
  unfolding after_record
  after_record-SettledAt shard group result (w, err x) w' id h e m =
      fail_group-SettledAt group (settings.bookkeeping_failed shard x) w w' id e m
  after_record-SettledAt shard group result (w, ok _) w' id h e m =
      let same = spot_checks-Keeps engine settings shard result group w in
      let last : (spot_checks engine settings shard result group w).0 ≡ w' =
        ap (λ (p : World S Score × Result {0} Unit). p.0) e in
      subst (λ (x : World S Score). SettledAt id x.db.jobs) last (rw same (h refl))

  record_group-SettledAt :
      (shard : ℕ) (group : List Claim) (result : Outcome Replay) (w : World S Score) (id : Text)
      → In id (map (λ (j : Claim). j.erasure_id) group)
      → (record_group engine settings shard group result w).1 ≡ ok tt
      → SettledAt id (record_group engine settings shard group result w).0.db.jobs
  unfolding record_group
  record_group-SettledAt shard group result w id m e =
      let (w1, _, f, rest) =
        then_run-ok (promote_shard engine settings shard result.result_weights w)
          (λ _. record_jobs engine settings result group)
          (record_group engine settings shard group result w).0 tt
          (ap (λ r. ((record_group engine settings shard group result w).0, r)) e) in
      record_jobs-SettledAt result group w1 _ id rest (inr m)

  after_rebuild-SettledAt :
      (shard : ℕ) (group : List Claim) (p : World S Score × Result (Outcome Replay))
      (w' : World S Score) (id : Text)
      → after_rebuild engine settings shard group p ≡ (w', ok tt)
      → In id (map (λ (j : Claim). j.erasure_id) group)
      → SettledAt id w'.db.jobs
  unfolding after_rebuild
  after_rebuild-SettledAt shard group (w, err x) w' id e m =
      fail_group-SettledAt group (settings.rebuild_failed x) w w' id e m
  after_rebuild-SettledAt shard group (w, ok result) w' id e m =
      after_record-SettledAt shard group result (record_group engine settings shard group result w)
        w' id (record_group-SettledAt shard group result w id m) e m

  -- Whatever happens: when `process_group` returns, no job of the group is held any more. Its rows
  -- are done or failed, and have no holder and no lease.
  pub process_group-SettledAt :
      (shard : ℕ) (group : List Claim) (w w' : World S Score) (id : Text)
      → process_group engine settings (shard, group) w ≡ (w', ok tt)
      → In id (map (λ (j : Claim). j.erasure_id) group)
      → SettledAt id w'.db.jobs
  unfolding process_group
  process_group-SettledAt shard group w w' id e m = after_rebuild-SettledAt shard group _ w' id e m
