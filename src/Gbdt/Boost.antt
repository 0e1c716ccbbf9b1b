-- ===== src/Gbdt/Boost.antt =====
-- engine/gbdt.py: the features, the boosting of a shard slice by slice, and the rollback. XGBoost is
-- the parameter `Xgb`, and a float is of any type `F`.
use unlearn_shield.Prelude.{
  ℕ, zero, suc, ◌*◌, ◌-◌, Bool, true, List, [], ◌∷◌, ◌++◌, Option, none, some, not, map, keep, all,
  leb, ltb, if◌then◌else◌,
}
use unlearn_shield.Prelude.Result.{Result, ok, err, value_error, index_error, ◌>>=◌, map_result}
use unlearn_shield.Python.Bytes.{Bytes, Text, mem}
use unlearn_shield.Engine.Store.{Row}

-- The other columns of a row: the numeric ones, the type of the transaction and the label.
pub record Columns (F : Type 0) : Type 0 where
  pub numeric : List F
  pub type_idx : ℕ
  pub is_fraud : F

-- What the code calls of XGBoost and numpy.
pub record Xgb (F Booster : Type 0) : Type 0 where
  pub zero_float : F
  pub one_float : F
  pub to_float32 : F → F
  -- `xgb.train(PARAMS, DMatrix(features, label), num_boost_round, xgb_model)`
  pub train : List (List F × F) → ℕ → Option Booster → Booster
  -- `booster[0:n]`
  pub slice : Booster → ℕ → Result Booster
  -- `booster.predict(DMatrix(features))`
  pub predict : Booster → List (List F) → List F
  -- `booster.save_raw(raw_format="json")`
  pub save_raw : Booster → Bytes

-- The rows that `rebuild_booster` retains.
unfoldable pub retained_rows : {D : Type 0} → List Text → List (Row D) → List (Row D)
retained_rows refs records = keep (λ (r : Row _). not (mem r.subject_ref refs)) records

module _ {F Booster : Type 0} (xgb : Xgb F Booster) where
  unfoldable pub zeros : ℕ → List F
  zeros zero = []
  zeros (suc n) = xgb.zero_float ∷ zeros n

  -- A row of `onehot`: `width` zeros, of which the one at `at` is replaced.
  unfoldable pub one_hot : ℕ → ℕ → Result (List F)
  unfolding zeros
  one_hot zero at = err index_error
  one_hot (suc width) zero = ok (xgb.one_float ∷ zeros width)
  one_hot (suc width) (suc at) = do rest ← one_hot width at; ok (xgb.zero_float ∷ rest)

  -- `features`, of one row; there are five `TYPES`.
  unfoldable pub row_features : Row (Columns F) → Result (List F)
  unfolding one_hot
  row_features r = do
    onehot ← one_hot 5 r.columns.type_idx
    ok (map xgb.to_float32 (r.columns.numeric ++ onehot))

  unfoldable pub features : List (Row (Columns F)) → Result (List (List F))
  unfolding row_features
  features rows = map_result row_features rows

  -- A row of the matrix with its label.
  unfoldable pub labelled : Row (Columns F) → Result (List F × F)
  unfolding row_features
  labelled r = do x ← row_features r; ok (x, r.columns.is_fraud)

  -- `_matrix`: on the rows of the slices up to this one.
  unfoldable pub matrix : List (Row (Columns F)) → ℕ → Result (List (List F × F))
  unfolding labelled
  matrix records upto_slice =
      map_result labelled (keep (λ (r : Row (Columns F)). leb r.slice_idx upto_slice) records)

  -- The loop of `train_shard`, of which `left` rounds remain.
  unfoldable pub boost_slices :
      (trees_per_slice : ℕ)
      → List (Row (Columns F))
      → (left slice_idx : ℕ) → Option Booster
      → Result (Option Booster)
  boost_slices trees_per_slice records zero slice_idx booster = ok booster
  boost_slices trees_per_slice records (suc left) slice_idx booster = do
    m ← matrix records slice_idx
    boost_slices trees_per_slice records left (suc slice_idx)
        (some (xgb.train m trees_per_slice booster))

  -- The guard of `train_shard`.
  unfoldable pub can_start : ℕ → Option Booster → Bool
  can_start from_slice none = not (ltb 0 from_slice)
  can_start from_slice (some booster) = true

  -- `train_shard`: None if it trains no slice and starts from none.
  unfoldable pub train_shard :
      (num_slices trees_per_slice : ℕ)
      → List (Row (Columns F))
      → (from_slice : ℕ) → Option Booster
      → Result (Option Booster)
  unfolding boost_slices can_start
  train_shard num_slices trees_per_slice records from_slice booster =
      if can_start from_slice booster
      then boost_slices trees_per_slice records (num_slices - from_slice) from_slice booster
      else err value_error

  -- `rollback`
  unfoldable pub rollback : ℕ → Booster → ℕ → Result (Option Booster)
  rollback trees_per_slice booster zero = ok none
  rollback trees_per_slice booster (suc i) = do
    kept ← xgb.slice booster (suc i * trees_per_slice)
    ok (some kept)

  -- `rebuild_booster`
  unfoldable pub rebuild_booster :
      (num_slices trees_per_slice : ℕ)
      → List Text
      → List (Row (Columns F))
      → (min_slice : ℕ) → Booster
      → Result (Option Booster × List (Row (Columns F)))
  unfolding train_shard rollback retained_rows
  rebuild_booster num_slices trees_per_slice refs records min_slice booster =
      if all (λ (r : Row (Columns F)). not (mem r.subject_ref refs)) records
      then err value_error
      else (do
        start ← rollback trees_per_slice booster min_slice
        rebuilt ←
            train_shard num_slices trees_per_slice (retained_rows refs records) min_slice start
        ok (rebuilt, retained_rows refs records))

  -- `predict`
  unfoldable pub predict : Booster → List (Row (Columns F)) → Result (List F)
  unfolding features
  predict booster rows = do x ← features rows; ok (xgb.predict booster x)
