-- ===== src/Gbdt/Training.antt =====
-- Training from nothing succeeds on rows whose transaction types are known.
use unlearn_shield.Prelude.{
  ℕ, zero, suc, ◌-◌, ◌<◌, ◌≡◌, refl, List, [], ◌∷◌, ◌++◌, none, some, map, All, All-keep, arith,
}
use unlearn_shield.Prelude.Result.{ok, map_result}
use unlearn_shield.Engine.Store.{Row}
use unlearn_shield.Gbdt.Boost.{
  Columns, Xgb, one_hot, row_features, labelled, matrix, boost_slices, train_shard,
}

module _ {F Booster : Type 0} (xgb : Xgb F Booster) where
  -- The type of the transaction is one of the five.
  abbrev pub IsTyped : Row (Columns F) → Type 0
  IsTyped r = r.columns.type_idx < 5

  one_hot-ok : (width at : ℕ) → at < width → (x : List F) × (one_hot xgb width at ≡ ok x)
  unfolding one_hot
  one_hot-ok zero at lt = absurd (omega arith)
  one_hot-ok (suc width) zero lt = (_, refl)
  one_hot-ok (suc width) (suc at) lt =
      let (x, e) = one_hot-ok width at (omega arith) in (xgb.zero_float ∷ x, rw e refl)

  labelled-ok : (r : Row (Columns F)) → IsTyped r → (x : List F × F) × (labelled xgb r ≡ ok x)
  unfolding labelled row_features
  labelled-ok r lt =
      let (x, e) = one_hot-ok 5 r.columns.type_idx lt in
      ((map xgb.to_float32 (r.columns.numeric ++ x), r.columns.is_fraud), rw e refl)

  map_result-labelled :
      (rows : List (Row (Columns F)))
      → All IsTyped rows
      → (m : List (List F × F)) × (map_result (labelled xgb) rows ≡ ok m)
  unfolding map_result
  map_result-labelled [] h = ([], refl)
  map_result-labelled (r ∷ rows) h =
      let (x, e) = labelled-ok r h.0 in
      let (xs, f) = map_result-labelled rows h.1 in (x ∷ xs, rw (e, f) refl)

  matrix-ok :
      (records : List (Row (Columns F))) (i : ℕ)
      → All IsTyped records
      → (m : List (List F × F)) × (matrix xgb records i ≡ ok m)
  unfolding matrix
  matrix-ok records i h = map_result-labelled _ (All-keep IsTyped _ records h)

  boost_slices-ok :
      (trees : ℕ) (records : List (Row (Columns F))) (left i : ℕ) (b : Booster)
      → All IsTyped records
      → (b' : Booster) × (boost_slices xgb trees records left i (some b) ≡ ok (some b'))
  unfolding boost_slices
  boost_slices-ok trees records zero i b h = (b, refl)
  boost_slices-ok trees records (suc left) i b h =
      let (m, e) = matrix-ok records i h in
      let (b', f) = boost_slices-ok trees records left (suc i) (xgb.train m trees (some b)) h in
      (b', rw e f)

  -- Training from nothing makes a booster, if there is a slice.
  pub train_shard-ok :
      (num_slices trees : ℕ) (records : List (Row (Columns F)))
      → 0 < num_slices
      → All IsTyped records
      → (b : Booster) × (train_shard xgb num_slices trees records 0 none ≡ ok (some b))
  unfolding train_shard
  train_shard-ok num_slices trees records lt h =
      let parts : num_slices - 0 ≡ suc (num_slices - 1) = omega arith in
      let (m, e) = matrix-ok records 0 h in
      let (b, f) = boost_slices-ok trees records (num_slices - 1) 1 (xgb.train m trees none) h in
      (b, rw (parts, boost_slices, e) f)
