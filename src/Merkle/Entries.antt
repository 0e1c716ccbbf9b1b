-- ===== src/Merkle/Entries.antt =====
-- The entries that verify/merkle.py's `prove_absence` makes are accepted by `verify_absence`.
use unlearn_shield.Prelude.{
  ℕ, zero, suc, ◌-◌, ◌<◌, ◌≡◌, refl, subst, inl, inr, true, false, List, [], ◌∷◌, some, length,
  take, drop, get_or, ltb, ◌==◌, lt→ltb, All, All-append, In, Bool-cases, if◌then◌else◌, arith,
}
use Prim.Native.Nat.{Ordering}
use unlearn_shield.Prelude.Result.{ok, ◌>>=◌}
use unlearn_shield.Python.Bytes.{Bytes, Text, IsByte, codes, bytes_eq, bytes_eq_refl, bytes_compare}
use unlearn_shield.Python.Sorting.{bytes_compare_flip, bytes_compare-eq}
use unlearn_shield.Python.Hex.{from_hex-to_hex}
use unlearn_shield.Python.Value.{pos, Value, null, dict_val, get, value_bytes}
use unlearn_shield.Smt.Hash.{IsDigest}
use unlearn_shield.Merkle.Tree.{
  leaf_hash, node_hash, commit, mth, mth_on, split, audit_path, audit_path_on,
}
use unlearn_shield.Merkle.Split.{le_or_lt}
use unlearn_shield.Merkle.Soundness.{audit_path-reconstruct_root}
use unlearn_shield.Merkle.Leaves.{read_entry-index, index_after-plus_one, All-get_or}
use unlearn_shield.Merkle.Search.{IsBound, Before-comes_before}
use unlearn_shield.Merkle.Proof.{
  entry_from, path_bytes, as_int, get_or_null, then_bytes, comes_before, read_entry, hex_items,
  items_bytes, entry_of_leaf, verify_audit_path, check, before_all, after_all, between,
  verify_sized, is_int, int_eq, plus_one, is_null, both_sides, predecessor_of, successor_of,
  empty_root,
}

-- A leaf that neither comes before the target nor is it comes after it.
comes_after :
    (target leaf : Bytes)
    → comes_before leaf target ≡ false
    → ¬ (leaf ≡ target)
    → comes_before target leaf ≡ true
unfolding comes_before
comes_after target leaf e differ = go (bytes_compare leaf target) refl e
  where
    go :
        (o : Ordering)
        → bytes_compare leaf target ≡ o
        → (elim o [ Ordering.lt ↦ true | Ordering.eq ↦ false | Ordering.gt ↦ false ]) ≡ false
        → comes_before target leaf ≡ true
    go Ordering.lt f e = absurd (cc e)
    go Ordering.eq f e = absurd (differ (bytes_compare-eq leaf target f))
    go Ordering.gt f e = Before-comes_before target leaf (bytes_compare_flip leaf target f)

pub get_or-In : (leaves : List Bytes) (i : ℕ) → i < length leaves → In (get_or leaves i []) leaves
get_or-In [] i lt = absurd (omega arith)
get_or-In (x ∷ leaves) zero lt = inl refl
get_or-In (x ∷ leaves) (suc i) lt = inr (get_or-In leaves i (omega arith))

items_bytes-hex_items :
    (hs : List Bytes) → All (All IsByte) hs → items_bytes (hex_items hs) ≡ some hs
unfolding items_bytes hex_items then_bytes value_bytes
items_bytes-hex_items [] h = refl
items_bytes-hex_items (x ∷ hs) h = rw (from_hex-to_hex x h.0, items_bytes-hex_items hs h.1) refl

verify_sized_some :
    (sha256 : Bytes → Bytes) (target : Bytes) (root : Text) (n : ℕ) (pred succ : Value)
    → 0 < n
    → verify_sized sha256 target root n pred succ ≡ (
        if is_null pred
        then before_all sha256 target root n succ
        else (if is_null succ
            then after_all sha256 target root n pred
            else between sha256 target root n pred succ))
unfolding verify_sized
verify_sized_some sha256 target root zero pred succ lt = absurd (omega arith)
verify_sized_some sha256 target root (suc n) pred succ lt = refl

empty_root-commit : (sha256 : Bytes → Bytes) → empty_root sha256 ≡ commit sha256 0 (mth sha256 [])
unfolding empty_root mth mth_on
empty_root-commit sha256 = refl

verify_sized_zero :
    (sha256 : Bytes → Bytes) (target : Bytes) (root : Text)
    → verify_sized sha256 target root 0 null null
      ≡ (empty_root sha256 >>= λ t. ok (bytes_eq root t))
unfolding verify_sized is_null
verify_sized_zero sha256 target root = refl

verify_sized_empty :
    (sha256 : Bytes → Bytes) (target : Bytes) (leaves : List Bytes) (root : Text)
    → length leaves < 1
    → commit sha256 (length leaves) (mth sha256 leaves) ≡ ok root
    → verify_sized sha256 target root (length leaves) null null ≡ ok true
verify_sized_empty sha256 target [] root lt e =
    rw (verify_sized_zero sha256 target root, empty_root-commit sha256, e, bytes_eq_refl root) refl
verify_sized_empty sha256 target (x ∷ leaves) root lt e = absurd (omega arith)

module _ (sha256 : Bytes → Bytes) (digest : IsDigest sha256) where
  mth-octets : (leaves : List Bytes) → All IsByte (mth sha256 leaves)
  unfolding mth mth_on leaf_hash node_hash
  mth-octets [] = digest.octets _
  mth-octets (x ∷ []) = digest.octets _
  mth-octets (x ∷ y ∷ rest) = digest.octets _

  audit_path_on-octets :
      (fuel i : ℕ) (leaves : List Bytes) → All (All IsByte) (audit_path_on sha256 fuel i leaves)
  unfolding audit_path_on
  audit_path_on-octets fuel i [] = tt
  audit_path_on-octets fuel i (x ∷ []) = tt
  audit_path_on-octets zero i (x ∷ y ∷ rest) = tt
  audit_path_on-octets (suc fuel) i (x ∷ y ∷ rest) =
      let ls = x ∷ y ∷ rest in
      let k = split (length ls) in
      elim (Bool-cases (ltb i (split (length (x ∷ y ∷ rest))))) [
        | inl e ↦
            rw (audit_path_on, e)
              (All-append (All IsByte) (audit_path_on sha256 fuel i (take k ls))
                (mth sha256 (drop k ls) ∷ []) (audit_path_on-octets fuel i _) (mth-octets _, tt))
        | inr e ↦
            rw (audit_path_on, e)
              (All-append (All IsByte) (audit_path_on sha256 fuel (i - k) (drop k ls))
                (mth sha256 (take k ls) ∷ []) (audit_path_on-octets fuel _ _) (mth-octets _, tt))
      ]

  module _ (leaves : List Bytes) (root : Text) (octets : All (All IsByte) leaves)
      (published : commit sha256 (length leaves) (mth sha256 leaves) ≡ ok root) where
    read_entry-entry_of_leaf :
        (i : ℕ)
        → i < length leaves
        → read_entry (entry_of_leaf sha256 leaves i)
          ≡ some (record {
            leaf = get_or leaves i [];
            index = pos i;
            path = audit_path sha256 i leaves;
          })
    unfolding read_entry entry_of_leaf get_or_null get path_bytes as_int entry_from value_bytes
        bytes_eq audit_path
    read_entry-entry_of_leaf i lt =
        rw
          (
            from_hex-to_hex (get_or leaves i []) (All-get_or _ leaves i octets lt),
            items_bytes-hex_items (audit_path sha256 i leaves)
                (audit_path_on-octets (length leaves) i leaves),
          )
          refl

    check-entry_of_leaf :
        (i : ℕ)
        → i < length leaves
        → check sha256 root (length leaves) (entry_of_leaf sha256 leaves i)
          ≡ ok (some (get_or leaves i []))
    unfolding check verify_audit_path
    check-entry_of_leaf i lt =
        rw
          (
            check,
            read_entry-entry_of_leaf i lt,
            verify_audit_path,
            audit_path-reconstruct_root sha256 i leaves lt,
            published,
            bytes_eq_refl root,
          )
          refl

    -- With the search at a bound, for a target that is no leaf.
    module _ (target : Bytes) (absent : ¬ In target leaves) where
      leaf_after :
          (lo : ℕ)
          → IsBound target leaves lo
          → lo < length leaves
          → comes_before target (get_or leaves lo []) ≡ true
      leaf_after lo bound lt =
          comes_after target (get_or leaves lo []) (bound.2 lo (omega arith) lt)
            (λ same. absent (subst (λ x. In x leaves) same (get_or-In leaves lo lt)))

      index_of :
          (i : ℕ)
          → i < length leaves
          → as_int (get_or_null (entry_of_leaf sha256 leaves i) (codes "index")) ≡ some (pos i)
      index_of i lt = read_entry-index _ _ (read_entry-entry_of_leaf i lt)

      before_all-entry :
          IsBound target leaves 0
          → 0 < length leaves
          → before_all sha256 target root (length leaves) (dict_val (entry_of_leaf sha256 leaves 0))
            ≡ ok true
      unfolding before_all is_null
      before_all-entry bound lt =
          rw (before_all, index_of 0 lt, check-entry_of_leaf 0 lt, leaf_after 0 bound lt) refl

      after_all-entry :
          (lo : ℕ)
          → IsBound target leaves (suc lo)
          → length leaves ≡ suc lo
          → after_all sha256 target root (length leaves) (dict_val (entry_of_leaf sha256 leaves lo))
            ≡ ok true
      unfolding after_all is_int int_eq
      after_all-entry lo bound last =
          let same : length leaves - 1 ≡ lo = omega arith in
          let eq : (lo == length leaves - 1) ≡ true = ground arith in
          rw
            (
              after_all,
              index_of lo (omega arith),
              eq,
              check-entry_of_leaf lo (omega arith),
              bound.1 lo (omega arith),
            )
            refl

      between-entries :
          (lo : ℕ)
          → IsBound target leaves (suc lo)
          → suc lo < length leaves
          → between sha256 target root
              (length leaves)
              (dict_val (entry_of_leaf sha256 leaves lo))
              (dict_val (entry_of_leaf sha256 leaves (suc lo)))
            ≡ ok true
      unfolding between both_sides plus_one is_int int_eq
      between-entries lo bound lt =
          let eq : (suc lo == suc lo) ≡ true = ground arith in
          rw
            (
              between,
              index_after-plus_one sha256 (entry_of_leaf sha256 leaves lo) (pos lo)
                  (index_of lo (omega arith)),
              index_of (suc lo) lt,
              eq,
              check-entry_of_leaf lo (omega arith),
              check-entry_of_leaf (suc lo) lt,
              bound.1 lo (omega arith),
              leaf_after (suc lo) bound lt,
            )
            refl

      pub verify_sized-proof_at :
          (lo : ℕ)
          → IsBound target leaves lo
          → verify_sized sha256 target root
              (length leaves)
              (predecessor_of sha256 leaves lo)
              (successor_of sha256 leaves lo)
            ≡ ok true
      unfolding predecessor_of successor_of is_null
      verify_sized-proof_at zero bound = elim (le_or_lt 1 (length leaves)) [
        | inl some_leaf ↦
            rw
              (
                lt→ltb 0 (length leaves) some_leaf,
                verify_sized_some sha256 target root (length leaves) null
                    (dict_val (entry_of_leaf sha256 leaves 0)) some_leaf,
              )
              (before_all-entry bound some_leaf)
        | inr none_left ↦
            let over : ltb 0 (length leaves) ≡ false = ground arith in
            rw over (verify_sized_empty sha256 target leaves root none_left published)
      ]
      verify_sized-proof_at (suc lo) bound = elim (le_or_lt (length leaves) (suc lo)) [
        | inl le ↦
            let over : ltb (suc lo) (length leaves) ≡ false = ground arith in
            let last : length leaves ≡ suc lo = omega (arith, bound.0) in
            rw
              (
                over,
                verify_sized_some sha256 target root (length leaves)
                    (dict_val (entry_of_leaf sha256 leaves lo)) null (omega arith),
              )
              (after_all-entry lo bound last)
        | inr lt ↦
            rw
              (
                lt→ltb (suc lo) (length leaves) lt,
                verify_sized_some sha256 target root (length leaves)
                    (dict_val (entry_of_leaf sha256 leaves lo))
                    (dict_val (entry_of_leaf sha256 leaves (suc lo))) (omega arith),
              )
              (between-entries lo bound lt)
      ]
