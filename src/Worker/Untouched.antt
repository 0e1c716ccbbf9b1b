-- ===== src/Worker/Untouched.antt =====
-- worker/jobs.py: the spot checks leave the table of jobs as it is.
use unlearn_shield.Prelude.{ℕ, ◌≡◌, refl, sym, ap, ◌∙◌, inl, inr, List, [], ◌∷◌, Bool-cases}
use unlearn_shield.Prelude.Result.{Exc, Result, ok, err, Result-cases, ok_injective}
use unlearn_shield.Python.Bytes.{Text, bytes_eq}
use unlearn_shield.Jobs.Queue.{Claim}
use unlearn_shield.Worker.Run.{
  Database, World, Run, pass, then_run, ◌>>=◌, caught, outcome_of, execute,
}
use unlearn_shield.Worker.Process.{
  Outcome, Engine, Settings, call_engine, should_spot_check, has_check, insert_check,
  run_spot_check,
}
use unlearn_shield.Worker.Groups.{spot_check, spot_checks}

module _ {S Replay Score : Type 0} (engine : Engine S Replay Score) (settings : Settings) where
  -- What leaves the jobs as they are.
  abbrev pub Keeps : {A : Type 0} → Run S Score A → Type 0
  Keeps m = (w : World S Score) → (m w).0.db.jobs ≡ w.db.jobs

  pass-Keeps : {A : Type 0} (a : A) → Keeps (pass a)
  unfolding pass
  pass-Keeps a w = refl

  then_run-Keeps :
      {A B : Type 0} (p : World S Score × Result A) (f : A → Run S Score B)
      → ((a : A) → Keeps (f a))
      → (then_run p f).0.db.jobs ≡ p.0.db.jobs
  unfolding then_run
  then_run-Keeps (w, err e) f h = refl
  then_run-Keeps (w, ok a) f h = h a w

  bind-Keeps :
      {A B : Type 0} (m : Run S Score A) (f : A → Run S Score B)
      → Keeps m
      → ((a : A) → Keeps (f a))
      → Keeps (m >>= f)
  bind-Keeps m f h k w = then_run-Keeps (m w) f k ∙ h w

  caught-Keeps :
      {A : Type 0} (p : World S Score × Result A) (f : Exc → Run S Score A)
      → ((e : Exc) → Keeps (f e))
      → (caught f p).0.db.jobs ≡ p.0.db.jobs
  unfolding caught
  caught-Keeps (w, err e) f h = h e w
  caught-Keeps (w, ok a) f h = refl

  execute-Keeps :
      (statement : Database Score → Result (Database Score))
      → ((db after : Database Score) → statement db ≡ ok after → after.jobs ≡ db.jobs)
      → Keeps (execute statement)
  unfolding execute outcome_of
  execute-Keeps statement h w = elim (Bool-cases w.aborted) [
    | inl f ↦ rw (execute, f) refl
    | inr f ↦ elim (Result-cases (statement w.db)) [
      | inl (x, g) ↦ rw (execute, f, g) refl
      | inr (db, g) ↦ rw (execute, f, g) (h w.db db g)
    ]
  ]

  insert_check-Keeps :
      (id expected observed : Text) (db after : Database Score)
      → insert_check engine settings id expected observed db ≡ ok after
      → after.jobs ≡ db.jobs
  unfolding insert_check
  insert_check-Keeps id expected observed db after e = elim (Bool-cases (has_check id db.checks)) [
    | inl f ↦ ap (λ (d : Database Score). d.jobs) (sym (ok_injective (rw (insert_check, f) at e)))
    | inr f ↦ ap (λ (d : Database Score). d.jobs) (sym (ok_injective (rw (insert_check, f) at e)))
  ]

  run_spot_check-Keeps :
      (id : Text) (shard : ℕ) (replay : Replay) (expected : Text)
      → Keeps (run_spot_check engine settings id shard replay expected)
  unfolding run_spot_check call_engine
  run_spot_check-Keeps id shard replay expected =
      bind-Keeps (call_engine engine settings (λ s. (s, engine.replay_digest s shard replay)))
        (λ observed. execute (insert_check engine settings id expected observed) >>= λ _.
          pass (bytes_eq observed expected))
        (λ w. refl)
        (λ observed.
          bind-Keeps (execute (insert_check engine settings id expected observed))
            (λ _. pass (bytes_eq observed expected))
            (execute-Keeps (insert_check engine settings id expected observed)
              (insert_check-Keeps id expected observed))
            (λ _. pass-Keeps (bytes_eq observed expected)))

  spot_check-Keeps :
      (shard : ℕ) (result : Outcome Replay) (job : Claim)
      → Keeps (spot_check engine settings shard result job)
  unfolding spot_check
  spot_check-Keeps shard result job w =
      elim (Bool-cases (should_spot_check engine settings job.erasure_id)) [
        | inr f ↦ rw (spot_check, f) refl
        | inl f ↦
            rw (spot_check, f)
              (caught-Keeps
                  ((run_spot_check engine settings job.erasure_id shard result.replay
                        result.result_weights
                      >>= λ matched. pass tt)
                    w)
                  (λ e. pass tt) (λ e. pass-Keeps tt)
                ∙ bind-Keeps
                    (run_spot_check engine settings job.erasure_id shard result.replay
                      result.result_weights)
                    (λ matched. pass tt)
                    (run_spot_check-Keeps job.erasure_id shard result.replay result.result_weights)
                    (λ matched. pass-Keeps tt) w)
      ]

  pub spot_checks-Keeps :
      (shard : ℕ) (result : Outcome Replay) (group : List Claim)
      → Keeps (spot_checks engine settings shard result group)
  unfolding spot_checks
  spot_checks-Keeps shard result [] = pass-Keeps tt
  spot_checks-Keeps shard result (job ∷ group) =
      bind-Keeps (spot_check engine settings shard result job)
        (λ _. spot_checks engine settings shard result group) (spot_check-Keeps shard result job)
        (λ _. spot_checks-Keeps shard result group)
