-- ===== src/Engine/ExactSlices.antt =====
-- engine/slicer.py where nothing wraps around: the slices are those of exact arithmetic.
use unlearn_shield.Prelude.{
  ℕ, zero, suc, ◌+◌, ◌-◌, ◌*◌, ◌/◌, ◌^◌, ◌≤◌, ◌<◌, ◌≡◌, refl, ap, ap₂, ◌∙◌, inl, inr, Bool-cases,
  Bool, true, List, [], ◌∷◌, ltb, if◌then◌else◌, arith,
}
use unlearn_shield.Python.Value.{ℤ, pos, negsuc}
use unlearn_shield.Python.Int64.{
  mul, floor_div, minimum, less, add_small, mul_small, add_minus_one, add_zero_minus_one,
  mul_minus_one,
}
use unlearn_shield.Engine.Slicer.{
  Subject, total_records, slice_of, pack, numbered, churn_order, slices_in_order,
}
use unlearn_shield.Prelude.Sort.{insert_sorted, sort_by}
use native.Mathlib.Nat.{mul-le-mul_right}

-- The slice of a subject with which `c` records are packed, of `t` in all.
unfoldable pub exact_slice : ℕ → ℕ → ℕ → ℤ
exact_slice n zero zero = pos 0
exact_slice n (suc t) zero = negsuc ((n - 1) / suc t)
exact_slice n t (suc c) = let s = c * n / t in if ltb s (n - 1) then pos s else pos (n - 1)

module _ {Churn : Type 0} where
  unfoldable pub record_sum : List (ℕ × Subject Churn) → ℕ
  record_sum [] = 0
  record_sum (x ∷ xs) = x.1.record_count + record_sum xs

  unfoldable pub exact_pack : ℕ → ℕ → ℕ → List (ℕ × Subject Churn) → List ((ℕ × Subject Churn) × ℤ)
  unfolding exact_slice
  exact_pack n t seen [] = []
  exact_pack n t seen (x ∷ xs) =
      (x, exact_slice n t (seen + x.1.record_count)) ∷ exact_pack n t (seen + x.1.record_count) xs

-- The first factor is no greater than a product with a positive number.
factor_le : (t n : ℕ) → t ≤ t * suc n
factor_le t n = omega (arith, mul-le-mul_right {m = 1} {n = suc n} t (omega arith))

no_records : (n t : ℕ) → suc n < 2 ^ 63 → slice_of (suc n) (pos t) (pos 0) ≡ exact_slice (suc n) t 0
unfolding slice_of
no_records n t fits =
    ap (λ x. minimum (floor_div (mul x (pos (suc n))) (pos t)) (pos (suc n - 1))) add_zero_minus_one
    ∙ ap (λ x. minimum (floor_div x (pos t)) (pos (suc n - 1))) (mul_minus_one n fits)
    ∙ last n t
  where
    smallest : (m : ℕ) → (if ltb 0 m then pos 0 else pos m) ≡ pos 0
    smallest zero = refl
    smallest (suc m) = let some_left : ltb 0 (suc m) ≡ true = ground arith in rw some_left refl

    last :
        (n t : ℕ)
        → minimum (floor_div (negsuc n) (pos t)) (pos (suc n - 1)) ≡ exact_slice (suc n) t 0
    last n zero = unfold minimum less floor_div exact_slice in smallest (suc n - 1)
    last n (suc t) =
        let same : n ≡ suc n - 1 = omega arith in
        unfold minimum less floor_div exact_slice in ap (λ m. negsuc (m / suc t)) same

some_records :
    (n t c : ℕ)
    → suc n < 2 ^ 63
    → suc c ≤ t
    → t * suc n < 2 ^ 63
    → slice_of (suc n) (pos t) (pos (suc c)) ≡ exact_slice (suc n) t (suc c)
unfolding slice_of
some_records n zero c fits le bound = absurd (omega arith)
some_records n (suc t) c fits le bound =
    let below = mul-le-mul_right {m = suc c} {n = suc t} (suc n) le in
    let small = factor_le (suc c) n in
    ap (λ x. minimum (floor_div (mul x (pos (suc n))) (pos (suc t))) (pos (suc n - 1)))
      (add_minus_one c (omega (arith, below, small, bound)))
    ∙ ap (λ x. minimum (floor_div x (pos (suc t))) (pos (suc n - 1)))
        (mul_small c (suc n) (omega (arith, below, small, bound)) fits
          (omega (arith, below, bound)))
    ∙ (unfold minimum less floor_div exact_slice in refl)

slice_of-exact :
    (n t c : ℕ)
    → suc n < 2 ^ 63
    → c ≤ t
    → t * suc n < 2 ^ 63
    → slice_of (suc n) (pos t) (pos c) ≡ exact_slice (suc n) t c
slice_of-exact n t zero fits le bound = no_records n t fits
slice_of-exact n t (suc c) fits le bound = some_records n t c fits le bound

module _ {Churn : Type 0} where
  pub total_records-exact :
      (seen : ℕ) (xs : List (ℕ × Subject Churn))
      → seen + record_sum xs < 2 ^ 63
      → total_records (pos seen) xs ≡ pos (seen + record_sum xs)
  unfolding total_records record_sum
  total_records-exact seen [] h = ap pos (omega arith)
  total_records-exact seen (x ∷ xs) h =
      ap (λ s. total_records s xs) (add_small seen x.1.record_count (omega (arith, h)))
      ∙ total_records-exact (seen + x.1.record_count) xs (omega (arith, h))
      ∙ ap pos (omega arith)

  pub pack-exact :
      (n t seen : ℕ) (xs : List (ℕ × Subject Churn))
      → suc n < 2 ^ 63
      → seen + record_sum xs ≤ t
      → t * suc n < 2 ^ 63
      → pack (suc n) (pos t) (pos seen) xs ≡ exact_pack (suc n) t seen xs
  unfolding pack exact_pack record_sum
  pack-exact n t seen [] fits le bound = refl
  pack-exact n t seen (x ∷ xs) fits le bound =
      let small = factor_le t n in
      let cumulative = add_small seen x.1.record_count (omega (arith, le, small, bound)) in
      ap (λ s. (x, slice_of (suc n) (pos t) s) ∷ pack (suc n) (pos t) s xs) cumulative
      ∙ ap₂ (λ s rest. (x, s) ∷ rest)
          (slice_of-exact n t (seen + x.1.record_count) fits (omega (arith, le)) bound)
          (pack-exact n t (seen + x.1.record_count) xs fits (omega (arith, le)) bound)

  -- The records of the subjects of a shard.
  abbrev pub records_of : List (Subject Churn) → ℕ
  records_of [] = 0
  records_of (x ∷ xs) = x.record_count + records_of xs

  record_sum-numbered :
      (i : ℕ) (xs : List (Subject Churn)) → record_sum (numbered i xs) ≡ records_of xs
  unfolding record_sum numbered
  record_sum-numbered i [] = refl
  record_sum-numbered i (x ∷ xs) = ap (λ s. x.record_count + s) (record_sum-numbered (suc i) xs)

  module _ (test : ℕ × Subject Churn → ℕ × Subject Churn → Bool) where
    record_sum-insert_sorted :
        (x : ℕ × Subject Churn) (ys : List (ℕ × Subject Churn))
        → record_sum (insert_sorted test x ys) ≡ x.1.record_count + record_sum ys
    unfolding record_sum insert_sorted
    record_sum-insert_sorted x [] = refl
    record_sum-insert_sorted x (y ∷ ys) = elim (Bool-cases (test x y)) [
      | inl e ↦ rw e refl
      | inr e ↦ rw e (ap (λ s. y.1.record_count + s) (record_sum-insert_sorted x ys) ∙ omega arith)
    ]

    record_sum-sort_by :
        (xs : List (ℕ × Subject Churn)) → record_sum (sort_by test xs) ≡ record_sum xs
    unfolding record_sum sort_by
    record_sum-sort_by [] = refl
    record_sum-sort_by (x ∷ xs) =
        record_sum-insert_sorted x (sort_by test xs)
        ∙ ap (λ s. x.1.record_count + s) (record_sum-sort_by xs)

  -- Where the product of the records and the slices is below 2^63, nothing wraps around.
  pub slices_in_order-exact :
      (before : Subject Churn → Subject Churn → Bool) (n : ℕ) (subjects : List (Subject Churn))
      → suc n < 2 ^ 63
      → records_of subjects * suc n < 2 ^ 63
      → slices_in_order before (suc n) subjects
        ≡ exact_pack (suc n) (records_of subjects) 0 (churn_order before subjects)
  unfolding slices_in_order churn_order
  slices_in_order-exact before n subjects fits bound =
      let order = churn_order before subjects in
      let sum : record_sum order ≡ records_of subjects =
        record_sum-sort_by (λ (x : ℕ × Subject Churn) (y : ℕ × Subject Churn). before x.1 y.1)
          (numbered 0 subjects)
        ∙ record_sum-numbered 0 subjects in
      let small = factor_le (records_of subjects) n in
      ap (λ t. pack (suc n) t (pos 0) order)
        (total_records-exact 0 order (omega (arith, sum, small, bound))
          ∙ ap pos (omega (arith, sum)))
      ∙ pack-exact n (records_of subjects) 0 order fits (omega (arith, sum)) bound
