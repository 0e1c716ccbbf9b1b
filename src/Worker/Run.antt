-- ===== src/Worker/Run.antt =====
-- What a worker's call does: it changes the engine's files and the database of its connection, and
-- returns or raises. A statement that fails aborts the transaction, and then every further one fails.
use unlearn_shield.Prelude.{ℕ, Bool, true, false, List}
use unlearn_shield.Prelude.Result.{Exc, Result, ok, err, db_error}
use unlearn_shield.Python.Bytes.{Text}
use unlearn_shield.Jobs.Table.{Job}
use unlearn_shield.Engine.Rebuild.{Manifest}
use unlearn_shield.Worker.Promote.{Registry}

-- A row of `erasure_manifests`; the other columns are those of the manifest.
pub record ManifestRow : Type 0 where
  pub erasure_id : Text
  pub manifest : Manifest
  pub signature : Text

-- A row of `eval_results`.
pub record EvalRow (Score : Type 0) : Type 0 where
  pub model_version : Text
  pub auc : Score
  pub n_eval : ℕ

-- A row of `reproducibility_checks`.
pub record CheckRow : Type 0 where
  pub erasure_id : Text
  pub expected_weights : Text
  pub observed_weights : Text
  pub matched : Bool
  pub code_digest : Text

pub record Database (Score : Type 0) : Type 0 where
  pub jobs : List Job
  pub registry : Registry
  pub manifests : List ManifestRow
  pub evals : List (EvalRow Score)
  pub checks : List CheckRow

pub record World (S Score : Type 0) : Type 0 where
  pub engine : S
  pub db : Database Score
  pub aborted : Bool

abbrev pub Run : Type 0 → Type 0 → Type 0 → Type 0
Run S Score A = World S Score → World S Score × Result A

module _ {S Score : Type 0} where
  unfoldable pub pass : {A : Type 0} → A → Run S Score A
  pass a w = (w, ok a)

  unfoldable pub raise : {A : Type 0} → Exc → Run S Score A
  raise e w = (w, err e)

  unfoldable pub lift : {A : Type 0} → Result A → Run S Score A
  lift r w = (w, r)

  unfoldable pub then_run :
      {A B : Type 0} → World S Score × Result A → (A → Run S Score B) → World S Score × Result B
  then_run (w, err e) f = (w, err e)
  then_run (w, ok a) f = f a w

  infixl 5 ◌>>=◌
  abbrev pub ◌>>=◌ : {A B : Type 0} → Run S Score A → (A → Run S Score B) → Run S Score B
  m >>= f = λ w. then_run (m w) f

  -- `try: ... except Exception as exc: ...`
  unfoldable pub caught :
      {A : Type 0} → (Exc → Run S Score A) → World S Score × Result A → World S Score × Result A
  caught handler (w, err e) = handler e w
  caught handler (w, ok a) = (w, ok a)

  -- `cur.execute(...)`
  unfoldable pub outcome_of :
      World S Score → Result (Database Score) → World S Score × Result {0} Unit
  outcome_of w (err e) = (record w { aborted = true }, err e)
  outcome_of w (ok db) = (record w { db = db }, ok tt)

  unfoldable pub execute : (Database Score → Result (Database Score)) → Run S Score Unit
  unfolding outcome_of
  execute statement w = elim (w.aborted) [
    | true ↦ (w, err db_error)
    | false ↦ outcome_of w (statement w.db)
  ]

  -- A query, which changes nothing.
  unfoldable pub fetch : {A : Type 0} → (Database Score → A) → Run S Score A
  fetch query w = elim (w.aborted) [ true ↦ (w, err db_error) | false ↦ (w, ok (query w.db)) ]

  -- `with conn, conn.cursor() as cur: ...`: a block that raises is rolled back, and so is one that
  -- ends in an aborted transaction.
  unfoldable pub close_transaction :
      {A : Type 0} → Database Score → World S Score × Result A → World S Score × Result A
  close_transaction before (w, err e) = (record w { db = before; aborted = false }, err e)
  close_transaction before (w, ok a) = elim (w.aborted) [
    | true ↦ (record w { db = before; aborted = false }, ok a)
    | false ↦ (w, ok a)
  ]

  unfoldable pub transaction : {A : Type 0} → Run S Score A → Run S Score A
  unfolding close_transaction
  transaction block w = close_transaction w.db (block (record w { aborted = false }))
