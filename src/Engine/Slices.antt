-- ===== src/Engine/Slices.antt =====
-- engine/slicer.py: the slices of a shard's subjects ascend with the churn, and are below NUM_SLICES.
use unlearn_shield.Prelude.{
  ℕ, zero, suc, ◌+◌, ◌-◌, ◌*◌, ◌/◌, ◌≤◌, ◌<◌, ◌≡◌, refl, ap, ◌∙◌, inl, inr, Bool, true, false, List,
  [], ◌∷◌, map, length, ltb, ltb→lt, lt→ltb, ◌^◌, Bool-cases, All, Pairs, arith,
}
use unlearn_shield.Prelude.Result.{ok}
use unlearn_shield.Prelude.Sort.{sort_by, All-sort_by, length-sort_by, IsOrder, sort_by-IsSorted}
use unlearn_shield.Python.Value.{ℤ, pos, negsuc}
use unlearn_shield.Engine.Slicer.{
  Subject, numbered, by_position, churn_order, slices_in_order, assign_slices,
}
use unlearn_shield.Engine.ExactSlices.{exact_slice, exact_pack, records_of, slices_in_order-exact}
use native.Mathlib.Nat.{div-zero, div-mul-le_self, le-div_iff_mul-le, mul-le-mul_right}

-- The order of int64.
abbrev pub AtMost : ℤ → ℤ → Type 0
AtMost (pos a) (pos b) = a ≤ b
AtMost (negsuc a) (pos b) = Unit
AtMost (pos a) (negsuc b) = ⊥
AtMost (negsuc a) (negsuc b) = b ≤ a

abbrev pub IsBelow : ℕ → ℤ → Type 0
IsBelow n (pos a) = a < n
IsBelow n (negsuc a) = ⊥

AtMost-refl : (s : ℤ) → AtMost s s
AtMost-refl (pos a) = omega arith
AtMost-refl (negsuc a) = omega arith

ltb→ge : (a b : ℕ) → ltb a b ≡ false → b ≤ a
ltb→ge a b h = ground arith

div_mono : (a b t : ℕ) → a ≤ b → a / t ≤ b / t
div_mono a b zero h = rw (div-zero a, div-zero b) (omega arith)
div_mono a b (suc t) h =
    let low = div-mul-le_self a (suc t) in
    (le-div_iff_mul-le {x = a / suc t} {y = b} (omega arith)).1 (omega arith)

exact_slice_mono : (n t c d : ℕ) → c ≤ d → AtMost (exact_slice n t c) (exact_slice n t d)
unfolding exact_slice
exact_slice_mono n t zero zero h = AtMost-refl (exact_slice n t zero)
exact_slice_mono n zero zero (suc d) h = elim (Bool-cases (ltb (d * n / zero) (n - 1))) [
  | inl f ↦ rw f (omega arith)
  | inr f ↦ rw f (omega arith)
]
exact_slice_mono n (suc t) zero (suc d) h = elim (Bool-cases (ltb (d * n / suc t) (n - 1))) [
  | inl f ↦ rw f tt
  | inr f ↦ rw f tt
]
exact_slice_mono n t (suc c) zero h = absurd (omega arith)
exact_slice_mono n t (suc c) (suc d) h =
    let le = div_mono (c * n) (d * n) t (mul-le-mul_right {m = c} {n = d} n (omega arith)) in
    elim (Bool-cases (ltb (c * n / t) (n - 1))) [
      | inl e ↦ elim (Bool-cases (ltb (d * n / t) (n - 1))) [
        | inl f ↦ rw (e, f) le
        | inr f ↦ rw (e, f) (let lt = ltb→lt _ _ e in omega arith)
      ]
      | inr e ↦ elim (Bool-cases (ltb (d * n / t) (n - 1))) [
        | inl f ↦ rw (e, f) (let ge = ltb→ge _ _ e in omega arith)
        | inr f ↦ rw (e, f) (omega arith)
      ]
    ]

exact_slice-IsBelow : (n t c : ℕ) → 0 < n → 0 < c → IsBelow n (exact_slice n t c)
unfolding exact_slice
exact_slice-IsBelow n zero zero p q = absurd (omega arith)
exact_slice-IsBelow n (suc t) zero p q = absurd (omega arith)
exact_slice-IsBelow n t (suc c) p q = elim (Bool-cases (ltb (c * n / t) (n - 1))) [
  | inl e ↦ rw e (let lt = ltb→lt _ _ e in omega arith)
  | inr e ↦ rw e (omega arith)
]

module _ {Churn : Type 0} where
  abbrev HasRecords : ℕ × Subject Churn → Type 0
  HasRecords x = 0 < x.1.record_count

  -- Two slices with their subjects, of which the first stands in front.
  abbrev pub Ascends :
      (Subject Churn → Subject Churn → Bool)
      → (ℕ × Subject Churn) × ℤ
      → (ℕ × Subject Churn) × ℤ
      → Type 0
  Ascends before x y = (before x.0.1 y.0.1 ≡ true) × AtMost x.1 y.1

  exact_pack-All :
      (P : ℕ × Subject Churn → Type 0) (n t c seen : ℕ) (xs : List (ℕ × Subject Churn))
      → c ≤ seen
      → All P xs
      → All (λ y. P y.0 × AtMost (exact_slice n t c) y.1) (exact_pack n t seen xs)
  unfolding exact_pack
  exact_pack-All P n t c seen [] h all = tt
  exact_pack-All P n t c seen (x ∷ xs) h all = (
    (all.0, exact_slice_mono n t c (seen + x.1.record_count) (omega arith)),
    exact_pack-All P n t c (seen + x.1.record_count) xs (omega arith) all.1,
  )

  exact_pack-Ascends :
      (before : Subject Churn → Subject Churn → Bool) (n t seen : ℕ) (xs : List (ℕ × Subject Churn))
      → Pairs (λ x y. before x.1 y.1 ≡ true) xs
      → Pairs (Ascends before) (exact_pack n t seen xs)
  unfolding exact_pack
  exact_pack-Ascends before n t seen [] h = tt
  exact_pack-Ascends before n t seen (x ∷ xs) h = (
    exact_pack-All (λ y. before x.1 y.1 ≡ true) n t (seen + x.1.record_count)
        (seen + x.1.record_count) xs (omega arith) h.0,
    exact_pack-Ascends before n t (seen + x.1.record_count) xs h.1,
  )

  exact_pack-IsBelow :
      (n t seen : ℕ) (xs : List (ℕ × Subject Churn))
      → 0 < n
      → All HasRecords xs
      → All (λ y. IsBelow n y.1) (exact_pack n t seen xs)
  unfolding exact_pack
  exact_pack-IsBelow n t seen [] p h = tt
  exact_pack-IsBelow n t seen (x ∷ xs) p h = (
    exact_slice-IsBelow n t (seen + x.1.record_count) p (omega (arith, h.0)),
    exact_pack-IsBelow n t (seen + x.1.record_count) xs p h.1,
  )

  length-exact_pack :
      (n t seen : ℕ) (xs : List (ℕ × Subject Churn)) → length (exact_pack n t seen xs) ≡ length xs
  unfolding exact_pack
  length-exact_pack n t seen [] = refl
  length-exact_pack n t seen (x ∷ xs) = ap suc (length-exact_pack n t (seen + x.1.record_count) xs)

  length-numbered : (i : ℕ) (xs : List (Subject Churn)) → length (numbered i xs) ≡ length xs
  unfolding numbered
  length-numbered i [] = refl
  length-numbered i (x ∷ xs) = ap suc (length-numbered (suc i) xs)

  numbered-HasRecords :
      (i : ℕ) (xs : List (Subject Churn))
      → All (λ (x : Subject Churn). 0 < x.record_count) xs
      → All HasRecords (numbered i xs)
  unfolding numbered
  numbered-HasRecords i [] h = tt
  numbered-HasRecords i (x ∷ xs) h = (h.0, numbered-HasRecords (suc i) xs h.1)

  slices-IsBelow :
      (n : ℕ) (xs : List ((ℕ × Subject Churn) × ℤ))
      → All (λ y. IsBelow n y.1) xs
      → All (IsBelow n) (map (λ y. y.1) xs)
  slices-IsBelow n [] h = tt
  slices-IsBelow n (x ∷ xs) h = (h.0, slices-IsBelow n xs h.1)

  length-slices : (xs : List ((ℕ × Subject Churn) × ℤ)) → length (map (λ y. y.1) xs) ≡ length xs
  length-slices [] = refl
  length-slices (x ∷ xs) = ap suc (length-slices xs)

  -- If every subject has a record, there is a slice to put it in, and the records times the slices
  -- are less than 2^63, then `assign_slices` returns one slice for each subject, and each is at least
  -- 0 and below the number of slices.
  pub assign_slices-IsBelow :
      (before : Subject Churn → Subject Churn → Bool) (n : ℕ) (subjects : List (Subject Churn))
      → 0 < n
      → records_of subjects * n < 2 ^ 63
      → All (λ (x : Subject Churn). 0 < x.record_count) subjects
      → (out : List ℤ) × (assign_slices before n subjects ≡ ok out)
        × (length out ≡ length subjects)
        × All (IsBelow n) out
  unfolding assign_slices churn_order
  assign_slices-IsBelow before zero subjects p bound h = absurd (omega arith)
  assign_slices-IsBelow before (suc n) [] p bound h = ([], refl, refl, tt)
  assign_slices-IsBelow before (suc n) (x ∷ xs) p bound h =
      let test = λ (x : ℕ × Subject Churn) (y : ℕ × Subject Churn). before x.1 y.1 in
      let order = churn_order before (x ∷ xs) in
      let total = records_of (x ∷ xs) in
      let packed = slices_in_order before (suc n) (x ∷ xs) in
      let some_records : 1 ≤ total = omega (arith, h.0) in
      let factor = mul-le-mul_right {m = 1} {n = total} (suc n) some_records in
      let fits : suc n < 2 ^ 63 = omega (arith, factor, bound) in
      let exact = slices_in_order-exact before n (x ∷ xs) fits bound in
      let below =
        exact_pack-IsBelow (suc n) total 0 order p
          (All-sort_by test _ (numbered 0 (x ∷ xs)) (numbered-HasRecords 0 (x ∷ xs) h)) in
      (
        map (λ y. y.1) (sort_by by_position packed),
        rw (lt→ltb (suc n) (2 ^ 63) fits) refl,
        length-slices (sort_by by_position packed)
            ∙ length-sort_by by_position packed
            ∙ ap length exact
            ∙ length-exact_pack (suc n) total 0 order
            ∙ length-sort_by test (numbered 0 (x ∷ xs))
            ∙ length-numbered 0 (x ∷ xs),
        slices-IsBelow (suc n) (sort_by by_position packed)
            (All-sort_by by_position _ packed (rw exact below)),
      )

  -- If churn orders the subjects, and the slices, of which there are some, and the records times the
  -- slices are less than 2^63, then of any two subjects the one that comes first by churn has a slice
  -- that is no later.
  pub slices_in_order-Ascends :
      (before : Subject Churn → Subject Churn → Bool) (n : ℕ) (subjects : List (Subject Churn))
      → IsOrder before
      → 0 < n
      → n < 2 ^ 63
      → records_of subjects * n < 2 ^ 63
      → Pairs (Ascends before) (slices_in_order before n subjects)
  unfolding churn_order
  slices_in_order-Ascends before zero subjects order some_slices fits bound = absurd (omega arith)
  slices_in_order-Ascends before (suc n) subjects order some_slices fits bound =
      rw (slices_in_order-exact before n subjects fits bound) (
        exact_pack-Ascends before (suc n) (records_of subjects) 0 (churn_order before subjects) (
          sort_by-IsSorted (λ (x : ℕ × Subject Churn) (y : ℕ × Subject Churn). before x.1 y.1)
            (record {
              trans = λ x y z. order.trans x.1 y.1 z.1;
              total = λ x y. order.total x.1 y.1;
            })
            (numbered 0 subjects)))
