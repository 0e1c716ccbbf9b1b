-- ===== src/Gbdt/Batch.antt =====
-- The rollback point of a batch, against the slices of its subjects.
use unlearn_shield.Prelude.{
  ℕ, ◌+◌, ◌-◌, ◌≤◌, ◌≡◌, refl, sym, subst, inl, inr, true, false, not, List, [], ◌∷◌, map, keep,
  all, length, All, All-map, In, Bool-cases, arith,
}
use unlearn_shield.Prelude.Result.{ok, map_result, Result-cases}
use unlearn_shield.Python.Bytes.{Text, mem, In-mem, bytes_eq, bytes_eq-eq, bytes_eq_refl}
use unlearn_shield.Engine.Store.{Row, Entry, Routing, entry_of}
use unlearn_shield.Engine.Purge.{batch_of, min_slice_of}
use unlearn_shield.Engine.Retained.{ref_of, erased}
use unlearn_shield.Engine.Batch.{without_entries}
use unlearn_shield.Engine.Manifests.{map-keep_refs}
use unlearn_shield.Gbdt.Boost.{retained_rows}

-- The rollback point of a batch is before every slice of its subjects.
min_slice_of-le :
    (e : Entry) (es : List Entry)
    → All (λ (f : Entry). min_slice_of e es ≤ f.min_slice_idx) (e ∷ es)
unfolding min_slice_of
min_slice_of-le e [] = (omega arith, tt)
min_slice_of-le e (f ∷ es) = (
  ground arith,
  All-map (λ (g : Entry). min_slice_of f es ≤ g.min_slice_idx) _ (f ∷ es)
      (λ g le. ground (arith, le)) (min_slice_of-le f es),
)

pub batch_of-le :
    (es : List Entry) (shard m : ℕ)
    → batch_of es ≡ ok (shard, m)
    → All (λ (f : Entry). m ≤ f.min_slice_idx) es
unfolding batch_of
batch_of-le [] shard m h = tt
batch_of-le (e ∷ es) shard m h =
    subst (λ k. All (λ (f : Entry). k ≤ f.min_slice_idx) (e ∷ es)) (ground (arith, h))
      (min_slice_of-le e es)

pub entries-le :
    (routing : Routing) (refs : List Text) (es : List Entry) (m : ℕ) (ref : Text) (e : Entry)
    → map_result (entry_of routing) refs ≡ ok es
    → All (λ (f : Entry). m ≤ f.min_slice_idx) es
    → In ref refs
    → entry_of routing ref ≡ ok e
    → m ≤ e.min_slice_idx
unfolding map_result
entries-le routing [] es m ref e f h i g = absurd i
entries-le routing (a ∷ refs) es m ref e f h i g = elim (Result-cases (entry_of routing a)) [
  | inl (x, p) ↦ absurd (cc (rw p at f))
  | inr (b, p) ↦ elim (Result-cases (map_result (entry_of routing) refs)) [
    | inl (x, q) ↦ absurd (cc (rw (p, q) at f))
    | inr (bs, q) ↦
        let same : b ∷ bs ≡ es = cc (rw (p, q) at f) in
        let all_le : (m ≤ b.min_slice_idx) × All (λ (k : Entry). m ≤ k.min_slice_idx) bs =
          subst (λ l. All (λ (k : Entry). m ≤ k.min_slice_idx) l) (sym same) h in
        elim i [
          | inl here ↦
              let eq : b ≡ e = cc (p, here, g) in
              subst (λ (k : Entry). m ≤ k.min_slice_idx) eq all_le.0
          | inr there ↦ entries-le routing refs bs m ref e q all_le.1 there g
        ]
  ]
]

-- The entries that are left are the ones of the other references.
pub entry_of-without_entries :
    (routing : Routing) (refs : List Text) (ref : Text)
    → mem ref refs ≡ false
    → entry_of (without_entries refs routing) ref ≡ entry_of routing ref
unfolding entry_of keep
entry_of-without_entries [] refs ref h = refl
entry_of-without_entries ((r, e) ∷ routing) refs ref h = elim (Bool-cases (bytes_eq r ref)) [
  | inl same ↦ let eq : r ≡ ref = bytes_eq-eq r ref same in rw (eq, h, bytes_eq_refl ref) refl
  | inr other ↦ elim (Bool-cases (mem r refs)) [
    | inl t ↦ rw (t, other) (entry_of-without_entries routing refs ref h)
    | inr t ↦ rw (t, other) (entry_of-without_entries routing refs ref h)
  ]
]

module _ {D : Type 0} where
  -- Some row is of one of the references.
  pub all_of_held :
      (refs : List Text) (records : List (Row D)) (ref : Text)
      → In ref (map ref_of records)
      → In ref refs
      → all (λ (r : Row D). not (mem r.subject_ref refs)) records ≡ false
  unfolding all
  all_of_held refs [] ref i m = absurd i
  all_of_held refs (r ∷ records) ref (inl e) m =
      let t : mem r.subject_ref refs ≡ true =
        subst (λ x. mem x refs ≡ true) e (In-mem ref refs m) in
      rw t refl
  all_of_held refs (r ∷ records) ref (inr i) m = ground (arith, all_of_held refs records ref i m)

  both_parts :
      (refs : List Text) (records : List (Row D))
      → length (retained_rows refs records) + length (erased refs records) ≡ length records
  unfolding retained_rows keep
  both_parts refs [] = omega arith
  both_parts refs (r ∷ records) = ground (arith, both_parts refs records)

  -- The rows that are dropped are those of the references.
  pub length-retained_rows :
      (refs : List Text) (records : List (Row D))
      → length records - length (retained_rows refs records) ≡ length (erased refs records)
  length-retained_rows refs records = omega (arith, both_parts refs records)

  -- The references of the rows that are left.
  pub map-retained_rows :
      (refs : List Text) (records : List (Row D))
      → map ref_of (retained_rows refs records) ≡ keep (λ a. not (mem a refs)) (map ref_of records)
  unfolding retained_rows
  map-retained_rows refs records = map-keep_refs (λ a. not (mem a refs)) records
