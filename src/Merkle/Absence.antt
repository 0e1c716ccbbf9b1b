-- ===== src/Merkle/Absence.antt =====
-- An absence proof of verify/merkle.py that verifies for a reference among the leaves is forged.
use unlearn_shield.Prelude.{
  ℕ, zero, suc, ◌-◌, ◌<◌, ◌≡◌, refl, sym, ap, subst, ◌∙◌, ◌⊎◌, inl, inr, Bool, true, ◌&&◌, List, [],
  some, length, get_or, In, Bool-cases, Option-cases, some_injective, arith,
}
use unlearn_shield.Prelude.Result.{ok, ◌>>=◌, Result-cases, map_result, ok_injective}
use unlearn_shield.Python.Bytes.{Bytes, Text, codes, bytes_eq, bytes_eq-eq}
use unlearn_shield.Python.Sorting.{IsAscending, sorted_set-IsAscending}
use unlearn_shield.Python.Value.{
  ℤ, pos, negsuc, Value, null, bool_val, int_val, list_val, dict_val, str_val, Fields, value_bytes,
}
use unlearn_shield.Smt.Hash.{IsSized, keys_of, ref_bytes}
use unlearn_shield.Merkle.Tree.{commit, mth, build_root}
use unlearn_shield.Merkle.Soundness.{SecondPreimage, Published}
use unlearn_shield.Merkle.Commit.{commit-inj}
use unlearn_shield.Merkle.Leaves.{
  check-leaf, is_int-eq, read_entry-index, member-index, pos_injective, index_after-plus_one,
  both_sides-some,
}
use unlearn_shield.Merkle.Proof.{
  comes_before, as_int, plus_one, is_int, is_null, get_or_null, as_dict, index_after, check,
  before_all, after_all, between, verify_sized, verify_dict, verify_texts, verify_absence,
  empty_root,
}

empty_root-commit : (sha256 : Bytes → Bytes) → empty_root sha256 ≡ commit sha256 0 (sha256 [])
unfolding empty_root
empty_root-commit sha256 = refl

pub keys_of-IsAscending :
    (refs : List Text) (leaves : List Bytes) → keys_of refs ≡ ok leaves → IsAscending leaves
unfolding keys_of
keys_of-IsAscending refs leaves e = elim (Result-cases (map_result ref_bytes refs)) [
  | inl (x, f) ↦ absurd (cc (rw (keys_of, f) at e))
  | inr (ks, f) ↦
      subst IsAscending (ok_injective (rw (keys_of, f) at e)) (sorted_set-IsAscending ks)
]

last_test : (a b c : Bool) → (a && b && c) ≡ true → c ≡ true
last_test a b c e = ground arith

module _ (sha256 : Bytes → Bytes) (sized : IsSized sha256) (leaves : List Bytes) (root : Text)
    (published : commit sha256 (length leaves) (mth sha256 leaves) ≡ ok root) (target : Bytes)
    (ascending : IsAscending leaves) (member : In target leaves) where
  -- A checked entry, whose index is the number that the code has compared it with.
  indexed_leaf :
      (size : ℕ) (entry : Fields) (b : Bytes) (n : ℤ)
      → is_int (as_int (get_or_null entry (codes "index"))) n ≡ true
      → check sha256 root size entry ≡ ok (some b)
      → ((i : ℕ) × (n ≡ pos i)
          × (size ≡ length leaves)
          × (i < length leaves)
          × (get_or leaves i [] ≡ b))
        ⊎ SecondPreimage sha256 (Published sha256 leaves)
  indexed_leaf size entry b n h k =
      elim (check-leaf sha256 sized leaves root published size entry b k) [
        | inr collision ↦ inr collision
        | inl (i, x, read, at_i, same, lt, found) ↦
            let index : some n ≡ some x.index =
              sym (is_int-eq _ n h) ∙ read_entry-index entry x read in
            inl (i, some_injective index ∙ at_i, same, lt, found)
      ]

  before_all-SecondPreimage :
      (size : ℕ) (succ : Value)
      → before_all sha256 target root size succ ≡ ok true
      → SecondPreimage sha256 (Published sha256 leaves)
  unfolding before_all
  before_all-SecondPreimage size succ e = elim (Bool-cases (is_null succ)) [
    | inl f ↦ absurd (cc (rw (before_all, f) at e))
    | inr f ↦ elim (Result-cases (as_dict succ)) [
      | inl (x, g) ↦ absurd (cc (rw (before_all, f, g) at e))
      | inr (entry, g) ↦
          elim (Bool-cases (is_int (as_int (get_or_null entry (codes "index"))) (pos 0))) [
            | inr h ↦ absurd (cc (rw (before_all, f, g, h) at e))
            | inl h ↦ elim (Result-cases (check sha256 root size entry)) [
              | inl (x, k) ↦ absurd (cc (rw (before_all, f, g, h, k) at e))
              | inr (leaf, k) ↦ elim (Option-cases leaf) [
                | inl l ↦ absurd (cc (rw (before_all, f, g, h, k, l) at e))
                | inr (b, l) ↦
                    let less : comes_before target b ≡ true =
                      ok_injective (rw (before_all, f, g, h, k, l) at e) in
                    elim (indexed_leaf size entry b (pos 0) h (k ∙ ap ok l)) [
                      | inr collision ↦ collision
                      | inl (i, at_i, same, lt, found) ↦
                          let (j, ltj, below, above) =
                            member-index leaves target ascending member in
                          let zero_i : 0 ≡ i = pos_injective at_i in
                          absurd (
                            omega (
                              arith,
                              zero_i,
                              below i lt
                                  (subst (λ y. comes_before target y ≡ true) (sym found) less),
                            ))
                    ]
              ]
            ]
          ]
    ]
  ]

  after_all-SecondPreimage :
      (size : ℕ) (pred : Value)
      → after_all sha256 target root size pred ≡ ok true
      → SecondPreimage sha256 (Published sha256 leaves)
  unfolding after_all
  after_all-SecondPreimage size pred e = elim (Result-cases (as_dict pred)) [
    | inl (x, g) ↦ absurd (cc (rw (after_all, g) at e))
    | inr (entry, g) ↦
        elim (Bool-cases (is_int (as_int (get_or_null entry (codes "index"))) (pos (size - 1)))) [
          | inr h ↦ absurd (cc (rw (after_all, g, h) at e))
          | inl h ↦ elim (Result-cases (check sha256 root size entry)) [
            | inl (x, k) ↦ absurd (cc (rw (after_all, g, h, k) at e))
            | inr (leaf, k) ↦ elim (Option-cases leaf) [
              | inl l ↦ absurd (cc (rw (after_all, g, h, k, l) at e))
              | inr (b, l) ↦
                  let less : comes_before b target ≡ true =
                    ok_injective (rw (after_all, g, h, k, l) at e) in
                  elim (indexed_leaf size entry b (pos (size - 1)) h (k ∙ ap ok l)) [
                    | inr collision ↦ collision
                    | inl (i, at_i, same, lt, found) ↦
                        let (j, ltj, below, above) = member-index leaves target ascending member in
                        let last : size - 1 ≡ i = pos_injective at_i in
                        absurd (
                          omega (
                            arith,
                            last,
                            same,
                            ltj,
                            above i lt (subst (λ y. comes_before y target ≡ true) (sym found) less),
                          ))
                  ]
            ]
          ]
        ]
  ]

  -- Two neighbours that were both checked.
  neighbours-SecondPreimage :
      (size : ℕ) (before after : Fields) (expected : ℤ) (a b : Bytes)
      → index_after sha256 before ≡ ok expected
      → is_int (as_int (get_or_null after (codes "index"))) expected ≡ true
      → check sha256 root size before ≡ ok (some a)
      → check sha256 root size after ≡ ok (some b)
      → comes_before a target ≡ true
      → comes_before target b ≡ true
      → SecondPreimage sha256 (Published sha256 leaves)
  unfolding plus_one
  neighbours-SecondPreimage size before after expected a b e h k l less more =
      elim (check-leaf sha256 sized leaves root published size before a k) [
        | inr collision ↦ collision
        | inl (i, x, read, at_i, same, lt, found) ↦
            let index = read_entry-index before x read ∙ ap some at_i in
            let next : expected ≡ pos (suc i) =
              ok_injective (sym e ∙ index_after-plus_one sha256 before (pos i) index) in
            elim (indexed_leaf size after b expected h l) [
              | inr collision ↦ collision
              | inl (i', at_i', same', lt', found') ↦
                  let (j, ltj, below, above) = member-index leaves target ascending member in
                  let suc_i : suc i ≡ i' = pos_injective (sym next ∙ at_i') in
                  absurd (
                    omega (
                      arith,
                      suc_i,
                      above i lt (subst (λ y. comes_before y target ≡ true) (sym found) less),
                      below i' lt' (subst (λ y. comes_before target y ≡ true) (sym found') more),
                    ))
            ]
      ]

  between-SecondPreimage :
      (size : ℕ) (pred succ : Value)
      → between sha256 target root size pred succ ≡ ok true
      → SecondPreimage sha256 (Published sha256 leaves)
  unfolding between
  between-SecondPreimage size pred succ e = elim (Result-cases (as_dict succ)) [
    | inl (x, f) ↦ absurd (cc (rw (between, f) at e))
    | inr (after, f) ↦ elim (Result-cases (as_dict pred)) [
      | inl (x, g) ↦ absurd (cc (rw (between, f, g) at e))
      | inr (before, g) ↦ elim (Result-cases (index_after sha256 before)) [
        | inl (x, h) ↦ absurd (cc (rw (between, f, g, h) at e))
        | inr (expected, h) ↦
            elim (Bool-cases (is_int (as_int (get_or_null after (codes "index"))) expected)) [
              | inr k ↦ absurd (cc (rw (between, f, g, h, k) at e))
              | inl k ↦ elim (Result-cases (check sha256 root size before)) [
                | inl (x, l) ↦ absurd (cc (rw (between, f, g, h, k, l) at e))
                | inr (lo, l) ↦ elim (Result-cases (check sha256 root size after)) [
                  | inl (x, m) ↦ absurd (cc (rw (between, f, g, h, k, l, m) at e))
                  | inr (hi, m) ↦
                      let (a, b, p, q, less, more) =
                        both_sides-some sha256 target lo hi
                          (ok_injective (rw (between, f, g, h, k, l, m) at e)) in
                      neighbours-SecondPreimage size before after expected a b h k (l ∙ ap ok p)
                        (m ∙ ap ok q) less more
                ]
              ]
            ]
      ]
    ]
  ]

  verify_sized_zero :
      (pred succ : Value)
      → verify_sized sha256 target root 0 pred succ
        ≡ (empty_root sha256 >>= λ t. ok (is_null pred && is_null succ && bytes_eq root t))
  unfolding verify_sized
  verify_sized_zero pred succ = refl

  -- Against the published root of no leaves.
  empty-SecondPreimage :
      (pred succ : Value)
      → verify_sized sha256 target root 0 pred succ ≡ ok true
      → SecondPreimage sha256 (Published sha256 leaves)
  empty-SecondPreimage pred succ e = elim (Result-cases (empty_root sha256)) [
    | inl (x, f) ↦ absurd (cc (rw f at (sym (verify_sized_zero pred succ) ∙ e)))
    | inr (t, f) ↦
        let eq : bytes_eq root t ≡ true =
          last_test (is_null pred) (is_null succ) (bytes_eq root t)
            (ok_injective (rw f at (sym (verify_sized_zero pred succ) ∙ e))) in
        elim (commit-inj sha256 0 (length leaves) (sha256 []) (mth sha256 leaves) root
          (sym (empty_root-commit sha256) ∙ f ∙ ap ok (sym (bytes_eq-eq root t eq))) published) [
            | inr (x, y, by_size, differ, one) ↦ (x, y, inr by_size, differ, one)
            | inl (none_left, same) ↦
                let (j, ltj, below, above) = member-index leaves target ascending member in
                absurd (omega (arith, none_left, ltj))
          ]
  ]

  verify_sized-SecondPreimage :
      (size : ℕ) (pred succ : Value)
      → verify_sized sha256 target root size pred succ ≡ ok true
      → SecondPreimage sha256 (Published sha256 leaves)
  unfolding verify_sized
  verify_sized-SecondPreimage zero pred succ e = empty-SecondPreimage pred succ e
  verify_sized-SecondPreimage (suc n) pred succ e = elim (Bool-cases (is_null pred)) [
    | inl f ↦ before_all-SecondPreimage (suc n) succ (rw (verify_sized, f) at e)
    | inr f ↦ elim (Bool-cases (is_null succ)) [
      | inl g ↦ after_all-SecondPreimage (suc n) pred (rw (verify_sized, f, g) at e)
      | inr g ↦ between-SecondPreimage (suc n) pred succ (rw (verify_sized, f, g) at e)
    ]
  ]

  verify_texts-SecondPreimage :
      (proof : Value)
      → verify_texts sha256 target proof (str_val root) ≡ ok true
      → SecondPreimage sha256 (Published sha256 leaves)
  unfolding verify_texts verify_dict
  verify_texts-SecondPreimage (dict_val d) e =
      elim (Option-cases (as_int (get_or_null d (codes "tree_size")))) [
        | inl f ↦ absurd (cc (rw (verify_dict, f) at e))
        | inr (n, f) ↦ with_size n f e
      ]
    where
      with_size :
          (n : ℤ)
          → as_int (get_or_null d (codes "tree_size")) ≡ some n
          → verify_dict sha256 target d root ≡ ok true
          → SecondPreimage sha256 (Published sha256 leaves)
      with_size (negsuc n) f e = absurd (cc (rw (verify_dict, f) at e))
      with_size (pos size) f e = verify_sized-SecondPreimage size _ _ (rw (verify_dict, f) at e)
  verify_texts-SecondPreimage null e = absurd (cc e)
  verify_texts-SecondPreimage (bool_val b) e = absurd (cc e)
  verify_texts-SecondPreimage (int_val n) e = absurd (cc e)
  verify_texts-SecondPreimage (str_val t) e = absurd (cc e)
  verify_texts-SecondPreimage (list_val items) e = absurd (cc e)

-- If digests all have 32 entries, of whatever size: when a proof verifies, against the root that
-- `build_root` gives, for a target that is among the leaves, then some input has the digest of another
-- one, which `build_root` hashes over the leaves, whatever the proof is.
pub merkle_verify_absence_sound :
    (sha256 : Bytes → Bytes) (sized : IsSized sha256) (refs : List Text) (target_ref : Text)
    (proof : Value) (leaves : List Bytes) (target : Bytes) (root : Text)
    → keys_of refs ≡ ok leaves
    → build_root sha256 refs ≡ ok root
    → value_bytes (str_val target_ref) ≡ some target
    → In target leaves
    → verify_absence sha256 (str_val target_ref) proof (str_val root) ≡ ok true
    → SecondPreimage sha256 (Published sha256 leaves)
unfolding verify_absence build_root
merkle_verify_absence_sound sha256 sized refs target_ref proof leaves target root e f g m h =
    verify_texts-SecondPreimage sha256 sized leaves root (rw (build_root, e) at f) target
      (keys_of-IsAscending refs leaves e) m proof (rw (verify_absence, g) at h)
