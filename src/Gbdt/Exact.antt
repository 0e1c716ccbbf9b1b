-- ===== src/Gbdt/Exact.antt =====
-- A rebuild of a booster is a clean retrain on the rows that are left.
use unlearn_shield.Prelude.{
  ℕ, zero, suc, ◌+◌, ◌*◌, ◌-◌, ◌≤◌, ◌<◌, ◌≡◌, refl, sym, ap, ◌∙◌, subst, inl, inr, Bool, true,
  false, not, List, [], ◌∷◌, Option, none, some, keep, all, All, All-map, leb, leb→le, Bool-cases,
  arith,
}
use unlearn_shield.Prelude.Result.{ok, ◌>>=◌, Result-cases, map_result}
use unlearn_shield.Python.Bytes.{Text, mem}
use unlearn_shield.Engine.Store.{Row}
use unlearn_shield.Gbdt.Boost.{
  Columns, Xgb, labelled, matrix, boost_slices, train_shard, rollback, retained_rows,
  rebuild_booster,
}

-- What XGBoost documents of a booster: how many rounds it has, and that a slice of a booster which
-- training continued is a slice of what it continued; an empty slice is not allowed.
pub record IsBoosting {F Booster : Type 0} (xgb : Xgb F Booster) : Type 0 where
  pub rounds : Booster → ℕ
  pub fresh : (m : List (List F × F)) (n : ℕ) → rounds (xgb.train m n none) ≡ n
  pub grown :
      (m : List (List F × F)) (n : ℕ) (b : Booster) → rounds (xgb.train m n (some b)) ≡ rounds b + n
  pub whole : (b : Booster) → 0 < rounds b → xgb.slice b (rounds b) ≡ ok b
  pub kept :
      (m : List (List F × F)) (n : ℕ) (b : Booster) (k : ℕ)
      → 0 < k
      → k ≤ rounds b
      → xgb.slice (xgb.train m n (some b)) k ≡ xgb.slice b k

module _ {F Booster : Type 0} (xgb : Xgb F Booster) (laws : IsBoosting xgb) (trees : ℕ)
    (some_trees : 0 < trees) where
  -- What continuing a booster makes: it keeps the earlier rounds, and adds its own.
  abbrev Continues : Booster → ℕ → Option Booster → Type 0
  Continues b left o =
      (b' : Booster) × (o ≡ some b')
      × ((k : ℕ) → 0 < k → k ≤ laws.rounds b → xgb.slice b' k ≡ xgb.slice b k)
      × (laws.rounds b' ≡ laws.rounds b + left * trees)

  boost_slices-Continues :
      (records : List (Row (Columns F))) (left i : ℕ) (b : Booster) (o : Option Booster)
      → boost_slices xgb trees records left i (some b) ≡ ok o
      → Continues b left o
  unfolding boost_slices
  boost_slices-Continues records zero i b o e = (b, cc, λ k lt le. refl, omega arith)
  boost_slices-Continues records (suc left) i b o e = elim (Result-cases (matrix xgb records i)) [
    | inl (x, f) ↦ absurd (cc (rw f at e))
    | inr (m, f) ↦
        let (b', same, s, r) =
          boost_slices-Continues records left (suc i) (xgb.train m trees (some b)) o (rw f at e) in
        (
          b',
          same,
          λ k lt le. s k lt (omega (arith, laws.grown m trees b)) ∙ laws.kept m trees b k lt le,
          grind (arith, r, laws.grown m trees b),
        )
  ]

  -- Two stretches of the loop are one.
  boost_slices-add :
      (records : List (Row (Columns F))) (a l i : ℕ) (o : Option Booster)
      → boost_slices xgb trees records (a + l) i o ≡ (
          boost_slices xgb trees records a i o >>= λ o'.
          boost_slices xgb trees records l (i + a) o')
  unfolding boost_slices
  boost_slices-add records zero l i o =
      let e : 0 + l ≡ l = omega arith in let f : i + 0 ≡ i = omega arith in rw (e, f) refl
  boost_slices-add records (suc a) l i o =
      let e : suc a + l ≡ suc (a + l) = omega arith in
      let f : i + suc a ≡ suc i + a = omega arith in
      rw (e, f)
        (elim (Result-cases (matrix xgb records i)) [
          | inl (x, g) ↦ rw g refl
          | inr (m, g) ↦ rw g (boost_slices-add records a l (suc i) (some (xgb.train m trees o)))
        ])

  -- Records with the same rows below a slice train the same up to it.
  boost_slices_congr :
      (records others : List (Row (Columns F))) (left i : ℕ) (o : Option Booster)
      → ((j : ℕ) → j < i + left → matrix xgb records j ≡ matrix xgb others j)
      → boost_slices xgb trees records left i o ≡ boost_slices xgb trees others left i o
  unfolding boost_slices
  boost_slices_congr records others zero i o h = refl
  boost_slices_congr records others (suc left) i o h = elim (Result-cases (matrix xgb others i)) [
    | inl (x, g) ↦ rw (h i (omega arith), g) refl
    | inr (m, g) ↦
        rw (h i (omega arith), g)
          (boost_slices_congr records others left (suc i) (some (xgb.train m trees o))
            (λ j lt. h j (omega arith)))
  ]

  -- What is trained from nothing has the rounds of its slices.
  boost_slices-rounds :
      (records : List (Row (Columns F))) (i : ℕ) (o : Option Booster)
      → boost_slices xgb trees records (suc i) 0 none ≡ ok o
      → (b : Booster) × (o ≡ some b) × (laws.rounds b ≡ suc i * trees)
  unfolding boost_slices
  boost_slices-rounds records i o e = elim (Result-cases (matrix xgb records 0)) [
    | inl (x, f) ↦ absurd (cc (rw f at e))
    | inr (m, f) ↦
        let (b, same, s, r) =
          boost_slices-Continues records i 1 (xgb.train m trees none) o (rw f at e) in
        (b, same, grind (arith, r, laws.fresh m trees))
  ]

  -- A booster cut back to the slices before one is what those slices made.
  slice-boost_slices :
      (records : List (Row (Columns F))) (i l : ℕ) (b : Booster)
      → boost_slices xgb trees records (suc i + l) 0 none ≡ ok (some b)
      → (b' : Booster) × (boost_slices xgb trees records (suc i) 0 none ≡ ok (some b'))
        × (xgb.slice b (suc i * trees) ≡ ok b')
  slice-boost_slices records i l b e =
      let split = sym (boost_slices-add records (suc i) l 0 none) ∙ e in
      elim (Result-cases (boost_slices xgb trees records (suc i) 0 none)) [
        | inl (x, f) ↦ absurd (cc (rw f at split))
        | inr (o, f) ↦
            let (b', same, r) = boost_slices-rounds records i o f in
            let (b'', again, s, _) =
              boost_slices-Continues records l (0 + suc i) b' (some b) (rw (f, same) at split) in
            let same_booster : b ≡ b'' = cc again in
            (
              b',
              f ∙ ap ok same,
              rw same_booster (
                  s (suc i * trees) (grind (arith, some_trees)) (omega (arith, r))
                  ∙ subst (λ n. xgb.slice b' n ≡ ok b') r
                      (laws.whole b' (grind (arith, r, some_trees)))),
            )
      ]

-- Filtering first by what every row that passes later passes changes nothing.
keep-keep_same :
    {A : Type 0} (p q : A → Bool) (xs : List A)
    → All (λ x. p x ≡ true → q x ≡ true) xs
    → keep p (keep q xs) ≡ keep p xs
unfolding keep
keep-keep_same p q [] h = refl
keep-keep_same p q (x ∷ xs) h = ground (arith, keep-keep_same p q xs h.1, h.0)

module _ {F Booster : Type 0} (xgb : Xgb F Booster) where
  -- The rows of the subjects are in no slice before this one.
  abbrev pub IsFrom : ℕ → List Text → List (Row (Columns F)) → Type 0
  IsFrom min_slice refs records =
      All (λ (r : Row (Columns F)). mem r.subject_ref refs ≡ true → min_slice ≤ r.slice_idx) records

  from_retained :
      (min_slice j : ℕ) (refs : List Text) (r : Row (Columns F))
      → j < min_slice
      → (mem r.subject_ref refs ≡ true → min_slice ≤ r.slice_idx)
      → leb r.slice_idx j ≡ true
      → not (mem r.subject_ref refs) ≡ true
  from_retained min_slice j refs r lt h e = elim (Bool-cases (mem r.subject_ref refs)) [
    | inl m ↦ absurd (omega (arith, h m, leb→le _ _ e))
    | inr m ↦ rw m refl
  ]

  matrix-retained_rows :
      (min_slice : ℕ) (refs : List Text) (records : List (Row (Columns F))) (j : ℕ)
      → IsFrom min_slice refs records
      → j < min_slice
      → matrix xgb (retained_rows refs records) j ≡ matrix xgb records j
  unfolding matrix retained_rows
  matrix-retained_rows min_slice refs records j h lt = ap (map_result (labelled xgb)) (
      keep-keep_same _ _ records
        (All-map _ _ records (λ r g. from_retained min_slice j refs r lt g) h))

  module _ (laws : IsBoosting xgb) (num_slices trees : ℕ) (some_trees : 0 < trees) where
    -- Continuing from the cut booster is boosting from nothing.
    cut-boost_slices :
        (refs : List Text) (records : List (Row (Columns F))) (i l : ℕ) (b : Booster)
        → IsFrom (suc i) refs records
        → boost_slices xgb trees records (suc i + l) 0 none ≡ ok (some b)
        → (b' : Booster) × (xgb.slice b (suc i * trees) ≡ ok b')
          × (boost_slices xgb trees (retained_rows refs records) l (suc i) (some b')
              ≡ boost_slices xgb trees (retained_rows refs records) (suc i + l) 0 none)
    cut-boost_slices refs records i l b h e =
        let left = retained_rows refs records in
        let (b', made, cut) = slice-boost_slices xgb laws trees some_trees records i l b e in
        let again : boost_slices xgb trees left (suc i) 0 none ≡ ok (some b') =
          boost_slices_congr xgb laws trees some_trees left records (suc i) 0 none
            (λ j lt. matrix-retained_rows (suc i) refs records j h (omega arith))
          ∙ made in
        let split = boost_slices-add xgb laws trees some_trees left (suc i) l 0 none in
        let zero_add : 0 + suc i ≡ suc i = omega arith in
        (b', cut, sym (rw (again, zero_add) at split))

    -- Continuing from the rollback is training from nothing.
    pub rollback-train_shard :
        (refs : List Text) (records : List (Row (Columns F))) (min_slice : ℕ) (b : Booster)
        → min_slice < num_slices
        → IsFrom min_slice refs records
        → train_shard xgb num_slices trees records 0 none ≡ ok (some b)
        → (start : Option Booster) × (rollback xgb trees b min_slice ≡ ok start)
          × (train_shard xgb num_slices trees (retained_rows refs records) min_slice start
              ≡ train_shard xgb num_slices trees (retained_rows refs records) 0 none)
    unfolding rollback train_shard
    rollback-train_shard refs records zero b lt h e = (none, refl, refl)
    rollback-train_shard refs records (suc i) b lt h e =
        let parts : num_slices - 0 ≡ suc i + (num_slices - suc i) = omega arith in
        let (b', cut, same) =
          cut-boost_slices refs records i (num_slices - suc i) b h
            (subst (λ n. boost_slices xgb trees records n 0 none ≡ ok (some b)) parts e) in
        (
          some b',
          rw cut refl,
          same ∙ ap (λ n. boost_slices xgb trees (retained_rows refs records) n 0 none) (sym parts),
        )

    -- If a slice has some trees, a booster is what training from nothing makes of the records, and the subjects in no
    -- slice before the rollback point, then `rebuild_booster` gives the very booster that training from
    -- nothing makes of the rows that are left, and those rows; it raises as that training does.
    pub rebuild_booster_exact :
        (refs : List Text) (records : List (Row (Columns F))) (min_slice : ℕ) (b : Booster)
        → min_slice < num_slices
        → IsFrom min_slice refs records
        → train_shard xgb num_slices trees records 0 none ≡ ok (some b)
        → all (λ (r : Row (Columns F)). not (mem r.subject_ref refs)) records ≡ false
        → rebuild_booster xgb num_slices trees refs records min_slice b ≡ (
            train_shard xgb num_slices trees (retained_rows refs records) 0 none >>= λ rebuilt.
            ok (rebuilt, retained_rows refs records))
    unfolding rebuild_booster
    rebuild_booster_exact refs records min_slice b lt h e some_held =
        let (start, rolled, same) = rollback-train_shard refs records min_slice b lt h e in
        rw (some_held, rolled, same) refl
