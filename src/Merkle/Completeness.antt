-- ===== src/Merkle/Completeness.antt =====
-- The proof that verify/merkle.py's `prove_absence` makes verifies.
use unlearn_shield.Prelude.{
  ℕ, suc, ◌^◌, ◌<◌, ◌≡◌, refl, subst, ◌∙◌, inl, inr, true, false, ◌&&◌, List, [], ◌∷◌, ◌++◌, some,
  length, get_or, ltb, ltb→lt, lt→ltb, All, In, Bool-cases, Option-cases, arith,
}
use unlearn_shield.Prelude.Result.{
  ok, err, value_error, attribute_error, Result-cases, map_result, ok_injective,
}
use unlearn_shield.Python.Bytes.{Bytes, Text, IsByte, codes, bytes_eq, bytes_eq_refl, bytes_eq-eq}
use unlearn_shield.Python.Sorting.{Before-ne, IsAscending, All-sorted_set}
use unlearn_shield.Python.Hex.{to_hex, from_hex, from_hex-octets}
use unlearn_shield.Python.Value.{
  pos, Value, str_val, int_val, dict_val, list_val, field, end, str_key, Items, get, value_bytes,
}
use unlearn_shield.Smt.Hash.{IsDigest, keys_of, ref_bytes}
use unlearn_shield.Merkle.Tree.{big_endian, commit, mth, to_bytes, build_root}
use unlearn_shield.Merkle.Split.{le_or_lt}
use unlearn_shield.Merkle.Absence.{keys_of-IsAscending}
use unlearn_shield.Merkle.Leaves.{In-get_or, get_or-Before, comes_before-Before}
use unlearn_shield.Merkle.Search.{IsBound, Before-comes_before, bisect-IsBound}
use unlearn_shield.Merkle.Entries.{get_or-In, verify_sized-proof_at}
use unlearn_shield.Merkle.Proof.{
  as_int, get_or_null, bisect, proof_at, prove_absence, after_all, as_dict, verify_sized,
  verify_dict, verify_texts, verify_absence, is_null, predecessor_of, successor_of,
}

commit-ok :
    (sha256 : Bytes → Bytes) (n : ℕ) (a : Bytes)
    → n < 2 ^ 64
    → (t : Text) × (commit sha256 n a ≡ ok t)
unfolding commit to_bytes
commit-ok sha256 n a lt =
    (to_hex (sha256 (2 ∷ (big_endian 8 n ++ a))), rw (lt→ltb n (2 ^ 64) lt) refl)

keys-octets :
    (refs : List Text) (ks : List Bytes) → map_result ref_bytes refs ≡ ok ks → All (All IsByte) ks
unfolding map_result ref_bytes
keys-octets [] ks e = subst (All (All IsByte)) (ok_injective e) tt
keys-octets (r ∷ refs) ks e = elim (Option-cases (from_hex r)) [
  | inl f ↦ absurd (cc (rw (map_result, ref_bytes, f) at e))
  | inr (b, f) ↦ elim (Result-cases (map_result ref_bytes refs)) [
    | inl (x, g) ↦ absurd (cc (rw (map_result, ref_bytes, f, g) at e))
    | inr (bs, g) ↦
        subst (All (All IsByte)) (ok_injective (rw (map_result, ref_bytes, f, g) at e))
          (from_hex-octets r b f, keys-octets refs bs g)
  ]
]

keys_of-octets :
    (refs : List Text) (leaves : List Bytes) → keys_of refs ≡ ok leaves → All (All IsByte) leaves
unfolding keys_of
keys_of-octets refs leaves e = elim (Result-cases (map_result ref_bytes refs)) [
  | inl (x, f) ↦ absurd (cc (rw (keys_of, f) at e))
  | inr (ks, f) ↦
      subst (All (All IsByte)) (ok_injective (rw (keys_of, f) at e))
        (All-sorted_set (All IsByte) ks (keys-octets refs ks f))
]

absent_test :
    (target : Bytes) (leaves : List Bytes) (lo : ℕ)
    → ¬ In target leaves
    → (ltb lo (length leaves) && bytes_eq (get_or leaves lo []) target) ≡ false
absent_test target leaves lo absent = elim (Bool-cases (ltb lo (length leaves))) [
  | inr e ↦ rw e refl
  | inl e ↦ elim (Bool-cases (bytes_eq (get_or leaves lo []) target)) [
    | inr f ↦ rw (e, f) refl
    | inl f ↦
        absurd (
          absent
            (subst (λ x. In x leaves) (bytes_eq-eq _ _ f) (get_or-In leaves lo (ltb→lt _ _ e))))
  ]
]

prove_absence-proof_at :
    (sha256 : Bytes → Bytes) (refs : List Text) (target_ref : Text) (leaves : List Bytes)
    (target : Bytes)
    → keys_of refs ≡ ok leaves
    → ref_bytes target_ref ≡ ok target
    → ¬ In target leaves
    → prove_absence sha256 target_ref refs ≡ ok (proof_at sha256 leaves (bisect target leaves))
unfolding prove_absence
prove_absence-proof_at sha256 refs target_ref leaves target e f absent =
    rw (prove_absence, e, f, absent_test target leaves (bisect target leaves) absent) refl

verify_absence-proof_at :
    (sha256 : Bytes → Bytes) (target_ref : Text) (leaves : List Bytes) (target : Bytes)
    (root : Text) (lo : ℕ)
    → from_hex target_ref ≡ some target
    → verify_absence sha256 (str_val target_ref) (proof_at sha256 leaves lo) (str_val root)
      ≡ verify_sized sha256 target root
          (length leaves)
          (predecessor_of sha256 leaves lo)
          (successor_of sha256 leaves lo)
unfolding verify_absence verify_texts verify_dict proof_at get_or_null get as_int value_bytes
    bytes_eq
verify_absence-proof_at sha256 target_ref leaves target root lo e = rw (verify_absence, e) refl

ref_bytes-ok : (r : Text) (b : Bytes) → from_hex r ≡ some b → ref_bytes r ≡ ok b
unfolding ref_bytes
ref_bytes-ok r b e = rw (ref_bytes, e) refl

-- If digests are 32 octets and there are less than 2^64 leaves: for a target that is not among the
-- leaves `prove_absence` returns a proof, and the proof verifies against the root that `build_root`
-- gives.
pub merkle_prove_absence-verify :
    (sha256 : Bytes → Bytes) (digest : IsDigest sha256) (refs : List Text) (target_ref : Text)
    (leaves : List Bytes) (target : Bytes)
    → keys_of refs ≡ ok leaves
    → length leaves < 2 ^ 64
    → from_hex target_ref ≡ some target
    → ¬ In target leaves
    → (root : Text) × (proof : Value) × (build_root sha256 refs ≡ ok root)
      × (prove_absence sha256 target_ref refs ≡ ok proof)
      × (verify_absence sha256 (str_val target_ref) proof (str_val root) ≡ ok true)
unfolding build_root
merkle_prove_absence-verify sha256 digest refs target_ref leaves target e few g absent =
    let (root, published) = commit-ok sha256 (length leaves) (mth sha256 leaves) few in
    let bound = bisect-IsBound target leaves (keys_of-IsAscending refs leaves e) in
    let octets = keys_of-octets refs leaves e in
    (
      root,
      proof_at sha256 leaves (bisect target leaves),
      rw (build_root, e) published,
      prove_absence-proof_at sha256 refs target_ref leaves target e
          (ref_bytes-ok target_ref target g) absent,
      verify_absence-proof_at sha256 target_ref leaves target root (bisect target leaves) g
          ∙ verify_sized-proof_at sha256 digest leaves root octets published target absent
              (bisect target leaves) bound,
    )

present_test :
    (target : Bytes) (leaves : List Bytes) (lo : ℕ)
    → IsAscending leaves
    → IsBound target leaves lo
    → In target leaves
    → (ltb lo (length leaves) && bytes_eq (get_or leaves lo []) target) ≡ true
present_test target leaves lo ascending bound m =
    let (j, lt, e) = In-get_or target leaves m in
    elim (le_or_lt lo j) [
      | inr later ↦ absurd (Before-ne _ _ (comes_before-Before _ _ (bound.1 j later)) e)
      | inl le ↦ elim (le_or_lt j lo) [
        | inl ge ↦
            let same : lo ≡ j = omega arith in
            rw (same, lt→ltb j (length leaves) lt, e) (bytes_eq_refl target)
        | inr less ↦
            let before = rw e at (get_or-Before leaves lo j ascending less lt) in
            absurd (cc (Before-comes_before _ _ before, bound.2 lo (omega arith) (omega arith)))
      ]
    ]

-- For a target that is among the leaves `prove_absence` raises ValueError.
pub merkle_prove_absence-present :
    (sha256 : Bytes → Bytes) (refs : List Text) (target_ref : Text) (leaves : List Bytes)
    (target : Bytes)
    → keys_of refs ≡ ok leaves
    → from_hex target_ref ≡ some target
    → In target leaves
    → prove_absence sha256 target_ref refs ≡ err value_error
unfolding prove_absence
merkle_prove_absence-present sha256 refs target_ref leaves target e f m =
    let ascending = keys_of-IsAscending refs leaves e in
    let test =
      present_test target leaves (bisect target leaves) ascending
        (bisect-IsBound target leaves ascending) m in
    rw (prove_absence, e, ref_bytes-ok target_ref target f, test) refl

-- A document with a size, and a list for the predecessor.
abbrev pub listed : ℕ → Items → Value
listed n items = dict_val (
    field (str_key (codes "tree_size")) (int_val (pos (suc n)))
      (field (str_key (codes "predecessor")) (list_val items) end))

-- On a document with a positive size whose predecessor is a list and that has no successor,
-- `verify_absence` raises AttributeError, for every target in hex digits and every root.
pub merkle_verify_absence-raises :
    (sha256 : Bytes → Bytes) (target_ref : Text) (target : Bytes) (root : Text) (n : ℕ)
    (items : Items)
    → from_hex target_ref ≡ some target
    → verify_absence sha256 (str_val target_ref) (listed n items) (str_val root)
      ≡ err attribute_error
unfolding verify_absence verify_texts verify_dict verify_sized get_or_null get as_int value_bytes
    bytes_eq is_null after_all as_dict
merkle_verify_absence-raises sha256 target_ref target root n items e = rw (verify_absence, e) refl
