-- ===== src/Engine/Retained.antt =====
-- The purge of distinct references that a shard holds.
use unlearn_shield.Prelude.{
  ℕ, ◌+◌, ◌≡◌, refl, ap, ◌∙◌, subst, inl, inr, true, false, not, ◌&&◌, List, [], ◌∷◌, map, keep,
  keep_both, keep-eq_self, keep_none, ap₂, length, All, All-map, All-zip, Pairs, In, ◌==◌,
  Bool-cases, arith,
}
use unlearn_shield.Prelude.Result.{ok}
use unlearn_shield.Python.Bytes.{Text, mem, bytes_eq, bytes_eq_refl, bytes_eq-eq}
use unlearn_shield.Engine.Store.{Row}
use unlearn_shield.Engine.Purge.{has_ref, purge, purge_all}

-- Distinct references.
abbrev pub Distinct : List Text → Type 0
Distinct = Pairs (λ a b. bytes_eq a b ≡ false)

module _ {D : Type 0} where
  abbrev pub ref_of : Row D → Text
  ref_of r = r.subject_ref

  -- The rows of the other subjects, in their order.
  abbrev pub retained : List Text → List (Row D) → List (Row D)
  retained refs = keep (λ r. not (mem (ref_of r) refs))

  -- The rows of the subjects.
  abbrev pub erased : List Text → List (Row D) → List (Row D)
  erased refs = keep (λ r. mem (ref_of r) refs)

  IsHeld : List (Row D) → Text → Type 0
  IsHeld records ref = (length (keep (has_ref ref) records) == 0) ≡ false

  In-IsHeld :
      (records : List (Row D)) (ref : Text) → In ref (map ref_of records) → IsHeld records ref
  unfolding keep has_ref IsHeld
  In-IsHeld [] ref m = absurd m
  In-IsHeld (r ∷ records) ref (inl e) =
      rw (subst (λ t. bytes_eq t ref ≡ true) e (bytes_eq_refl ref)) (ground arith)
  In-IsHeld (r ∷ records) ref (inr m) = elim (Bool-cases (bytes_eq r.subject_ref ref)) [
    | inl t ↦ rw t (ground arith)
    | inr t ↦ rw t (In-IsHeld records ref m)
  ]

  other_ref :
      (a b : Text) (r : Row D)
      → bytes_eq a b ≡ false
      → has_ref b r ≡ (has_ref b r && not (has_ref a r))
  unfolding has_ref
  other_ref a b r differ = elim (Bool-cases (bytes_eq r.subject_ref b)) [
    | inl t ↦ elim (Bool-cases (bytes_eq r.subject_ref a)) [
      | inl u ↦ absurd (cc (bytes_eq-eq _ _ t, bytes_eq-eq _ _ u, differ, bytes_eq_refl a))
      | inr u ↦ rw (t, u) refl
    ]
    | inr t ↦ rw t refl
  ]

  purge-IsHeld :
      (a b : Text) (records : List (Row D))
      → bytes_eq a b ≡ false
      → IsHeld records b
      → IsHeld (purge records a).0 b
  unfolding purge IsHeld
  purge-IsHeld a b records differ h =
      rw
        (keep_both (has_ref b) (λ r. not (has_ref a r)) (has_ref b) records
          (λ r. other_ref a b r differ))
        h

  retained-purge :
      (a : Text) (refs : List Text) (records : List (Row D))
      → retained refs (purge records a).0 ≡ retained (a ∷ refs) records
  unfolding purge has_ref mem
  retained-purge a refs records =
      keep_both _ _ (λ r. not (mem (ref_of r) (a ∷ refs))) records (λ r. ground arith)

  length-erased :
      (a : Text) (refs : List Text) (records : List (Row D))
      → (purge records a).1 + length (erased refs (purge records a).0)
        ≡ length (erased (a ∷ refs) records)
  unfolding purge has_ref mem keep
  length-erased a refs [] = omega arith
  length-erased a refs (r ∷ records) = ground (arith, length-erased a refs records)

  everyone : {P : Row D → Type 0} (records : List (Row D)) → ((r : Row D) → P r) → All P records
  everyone [] h = tt
  everyone (r ∷ records) h = (h r, everyone records h)

  purge_all_done :
      (records : List (Row D)) (n : ℕ)
      → purge_all records n [] ≡ ok (retained [] records, n + length (erased [] records))
  unfolding purge_all mem
  purge_all_done records n =
      rw
        (
          keep-eq_self (λ r. not (mem (ref_of r) [])) records (everyone records λ r. refl),
          keep_none (λ r. mem (ref_of r) []) records (everyone records λ r. refl),
        )
        (ap (λ m. ok (records, m)) (omega arith))

  purge_all_step :
      (records : List (Row D)) (n : ℕ) (a : Text) (refs : List Text)
      → IsHeld records a
      → purge_all records n (a ∷ refs)
        ≡ purge_all (purge records a).0 (n + (purge records a).1) refs
  unfolding purge_all purge IsHeld
  purge_all_step records n a refs h = rw h refl

  -- Purging distinct references that are held succeeds: the rows of the others are left, in their
  -- order, and the rows of the subjects are counted.
  purge_all-IsHeld :
      (records : List (Row D)) (n : ℕ) (refs : List Text)
      → All (IsHeld records) refs
      → Distinct refs
      → purge_all records n refs ≡ ok (retained refs records, n + length (erased refs records))
  purge_all-IsHeld records n [] h d = purge_all_done records n
  purge_all-IsHeld records n (a ∷ refs) h d =
      let p = purge records a in
      let later =
        All-map _ (IsHeld p.0) refs (λ b q. purge-IsHeld a b records q.0 q.1)
          (All-zip _ _ refs d.0 h.1) in
      purge_all_step records n a refs h.0
      ∙ (purge_all-IsHeld p.0 (n + p.1) refs later d.1
          ∙ ap₂ (λ rows m. ok (rows, m)) (retained-purge a refs records)
              (omega (arith, length-erased a refs records)))

  -- The same for references that occur among the rows.
  pub purge_all-In :
      (records : List (Row D)) (refs : List Text)
      → All (λ ref. In ref (map ref_of records)) refs
      → Distinct refs
      → purge_all records 0 refs ≡ ok (retained refs records, length (erased refs records))
  purge_all-In records refs h d =
      purge_all-IsHeld records 0 refs (All-map _ _ refs (λ ref m. In-IsHeld records ref m) h) d
      ∙ ap (λ m. ok (retained refs records, m)) (omega arith)
