-- ===== src/Merkle/Soundness.antt =====
-- A path of verify/merkle.py that leads to the root is of the leaf at its index, or an input of the
-- tree is collided with; an audit path leads to the root.
use unlearn_shield.Prelude.{
  ℕ, zero, suc, ◌-◌, ◌<◌, ◌≡◌, refl, sym, ap, subst, ◌∙◌, ◌⊎◌, inl, inr, true, false, List, [], ◌∷◌,
  ◌++◌, Option, none, some, length, length-append, take, drop, length-take, length-drop, get_or,
  get_or-take, get_or-drop, leb, ltb, Bool-cases, ◌≤◌, arith,
}
use unlearn_shield.Prelude.Result.{ok}
use unlearn_shield.Python.Bytes.{Bytes, bytes_eq, bytes_eq-eq, bytes_eq_iff}
use unlearn_shield.Python.Value.{pos}
use unlearn_shield.Smt.Hash.{IsSized}
use unlearn_shield.Smt.Soundness.{append_inj_of_length}
use unlearn_shield.Merkle.Tree.{
  to_bytes, split, leaf_hash, node_hash, mth_on, mth, audit_path, reconstruct_on, reconstruct_root,
}
use unlearn_shield.Merkle.Split.{split-bounds, le_or_lt}
use unlearn_shield.Merkle.Halves.{then_node}
use unlearn_shield.Merkle.Paths.{
  backwards, backwards-backwards, ascend, ascend_left, ascend_right, ascend_one, ascend_short,
  reconstruct-ascend,
}
use unlearn_shield.Merkle.Roots.{mth-split, audit_path_on-ascend}

-- An input has the digest of another one, for which `P` holds.
abbrev pub SecondPreimage : (Bytes → Bytes) → (Bytes → Type 0) → Type 0
SecondPreimage sha256 P = (a : Bytes) × (b : Bytes) × P b × ¬ (a ≡ b) × (sha256 a ≡ sha256 b)

pub preimage-cases :
    (sha256 : Bytes → Bytes) (P : Bytes → Type 0) (a b : Bytes)
    → P b
    → sha256 a ≡ sha256 b
    → (a ≡ b) ⊎ SecondPreimage sha256 P
preimage-cases sha256 P a b p e = elim (Bool-cases (bytes_eq a b)) [
  | inl same ↦ inl (bytes_eq-eq a b same)
  | inr differ ↦ inr (a, b, p, (λ q. cc ((bytes_eq_iff a b).1 q)), e)
]

-- What `_mth` hashes over some leaves.
pub data Hashed (sha256 : Bytes → Bytes) : List Bytes → Bytes → Type 0 where
  of_none : Hashed sha256 [] []
  of_one : (x : Bytes) → Hashed sha256 (x ∷ []) (0 ∷ x)
  of_node :
      (leaves : List Bytes)
      → 2 ≤ length leaves
      → Hashed sha256 leaves (
          1
          ∷ (mth sha256 (take (split (length leaves)) leaves)
              ++ mth sha256 (drop (split (length leaves)) leaves)))
  in_left :
      (leaves : List Bytes) (b : Bytes)
      → 2 ≤ length leaves
      → Hashed sha256 (take (split (length leaves)) leaves) b
      → Hashed sha256 leaves b
  in_right :
      (leaves : List Bytes) (b : Bytes)
      → 2 ≤ length leaves
      → Hashed sha256 (drop (split (length leaves)) leaves) b
      → Hashed sha256 leaves b

-- What `build_root` hashes over some leaves: the input of `_commit` too.
abbrev pub Published : (Bytes → Bytes) → List Bytes → Bytes → Type 0
Published sha256 leaves b =
    Hashed sha256 leaves b
    ⊎ ((size : Bytes) × (to_bytes (length leaves) ≡ ok size)
        × (b ≡ 2 ∷ (size ++ mth sha256 leaves)))

module _ (sha256 : Bytes → Bytes) (sized : IsSized sha256) where
  length-mth : (leaves : List Bytes) → length (mth sha256 leaves) ≡ 32
  unfolding mth mth_on leaf_hash node_hash
  length-mth [] = sized _
  length-mth (x ∷ []) = sized _
  length-mth (x ∷ y ∷ rest) = sized _

  then_node-some :
      (f : Bytes → Bytes) (o : Option Bytes) (a : Bytes)
      → then_node sha256 f o ≡ some a
      → (b : Bytes) × (o ≡ some b) × (f b ≡ a)
  then_node-some f none a e = absurd (cc e)
  then_node-some f (some b) a e = (b, refl, cc e)

  ascend-length_one :
      (n i : ℕ) (node a last : Bytes) (rest : List Bytes)
      → n < 2
      → ascend sha256 n i node (last ∷ rest) ≡ some a
      → length a ≡ 32
  unfolding ascend
  ascend-length_one n i node a last rest one e =
      let small : ltb 1 n ≡ false = ground arith in absurd (cc (rw small at e))

  ascend-length_end :
      (n i : ℕ) (node a : Bytes)
      → n < 2
      → length node ≡ 32
      → ascend sha256 n i node [] ≡ some a
      → length a ≡ 32
  unfolding ascend
  ascend-length_end n i node a one size e =
      let small : ltb 1 n ≡ false = ground arith in
      let same : some node ≡ some a = rw small at e in
      let eq : node ≡ a = cc same in subst (λ y. length y ≡ 32) eq size

  ascend-length :
      (n i : ℕ) (node a : Bytes) (rest : List Bytes)
      → length node ≡ 32
      → ascend sha256 n i node rest ≡ some a
      → length a ≡ 32
  ascend-length n i node a [] size e = elim (le_or_lt 2 n) [
    | inr one ↦ ascend-length_end n i node a one size e
    | inl two ↦ absurd (cc (sym (ascend_short sha256 n i node two) ∙ e))
  ]
  ascend-length n i node a (last ∷ rest) size e = elim (le_or_lt 2 n) [
    | inr one ↦ ascend-length_one n i node a last rest one e
    | inl two ↦ elim (le_or_lt (split n) i) [
      | inl le ↦
          let (b, f, same) =
            then_node-some _ _ a (sym (ascend_right sha256 n i node last rest two le) ∙ e) in
          subst (λ y. length y ≡ 32) same (unfold node_hash in sized _)
      | inr lt ↦
          let (b, f, same) =
            then_node-some _ _ a (sym (ascend_left sha256 n i node last rest two lt) ∙ e) in
          subst (λ y. length y ≡ 32) same (unfold node_hash in sized _)
    ]
  ]

  node_hash-left :
      (P : Bytes → Type 0) (a b c d : Bytes)
      → P (1 ∷ (c ++ d))
      → length a ≡ length c
      → node_hash sha256 a b ≡ node_hash sha256 c d
      → (a ≡ c) × (b ≡ d) ⊎ SecondPreimage sha256 P
  unfolding node_hash
  node_hash-left P a b c d p l e =
      elim (preimage-cases sha256 P (1 ∷ (a ++ b)) (1 ∷ (c ++ d)) p e) [
        | inl same ↦ inl (append_inj_of_length a b c d l (cc same))
        | inr collision ↦ inr collision
      ]

  node_hash-right :
      (P : Bytes → Type 0) (a b c d : Bytes)
      → P (1 ∷ (c ++ d))
      → length b ≡ length d
      → node_hash sha256 a b ≡ node_hash sha256 c d
      → (a ≡ c) × (b ≡ d) ⊎ SecondPreimage sha256 P
  unfolding node_hash
  node_hash-right P a b c d p l e =
      elim (preimage-cases sha256 P (1 ∷ (a ++ b)) (1 ∷ (c ++ d)) p e) [
        | inl same ↦
            let whole : a ++ b ≡ c ++ d = cc same in
            let sizes : length (a ++ b) ≡ length (c ++ d) = ap length whole in
            inl (
              append_inj_of_length a b c d
                (omega (arith, sizes, length-append a b, length-append c d)) whole)
        | inr collision ↦ inr collision
      ]

  -- With one leaf there is no sibling.
  leaf_sound :
      (i : ℕ) (x : Bytes) (leaves rest : List Bytes)
      → i < length leaves
      → length leaves < 2
      → ascend sha256 (length leaves) i (leaf_hash sha256 x) rest ≡ some (mth sha256 leaves)
      → (get_or leaves i [] ≡ x) ⊎ SecondPreimage sha256 (Hashed sha256 leaves)
  unfolding mth mth_on leaf_hash
  leaf_sound i x [] rest lt one e = absurd (omega arith)
  leaf_sound (suc i) x (y ∷ []) rest lt one e = absurd (omega arith)
  leaf_sound i x (y ∷ z ∷ leaves) rest lt one e = absurd (omega arith)
  leaf_sound zero x (y ∷ []) (last ∷ rest) lt one e =
      absurd (cc (sym (ascend_one sha256 0 _ (last ∷ rest)) ∙ e))
  leaf_sound zero x (y ∷ []) [] lt one e =
      let same : some (leaf_hash sha256 x) ≡ some (leaf_hash sha256 y) =
        sym (ascend_one sha256 0 _ []) ∙ e in
      elim (preimage-cases sha256 (Hashed sha256 (y ∷ [])) (0 ∷ x) (0 ∷ y) (of_one y) (cc same)) [
        | inl eq ↦ inl (cc eq)
        | inr collision ↦ inr collision
      ]

  ascend_sound :
      (i : ℕ) (x : Bytes) (leaves rest : List Bytes)
      → i < length leaves
      → ascend sha256 (length leaves) i (leaf_hash sha256 x) rest ≡ some (mth sha256 leaves)
      → (get_or leaves i [] ≡ x) ⊎ SecondPreimage sha256 (Hashed sha256 leaves)
  ascend_sound i x leaves [] lt e = elim (le_or_lt 2 (length leaves)) [
    | inr one ↦ leaf_sound i x leaves [] lt one e
    | inl two ↦
        absurd (cc (sym (ascend_short sha256 (length leaves) i (leaf_hash sha256 x) two) ∙ e))
  ]
  ascend_sound i x leaves (last ∷ rest) lt e = elim (le_or_lt 2 (length leaves)) [
    | inr one ↦ leaf_sound i x leaves (last ∷ rest) lt one e
    | inl two ↦
        let k = split (length leaves) in
        let bounds = split-bounds (length leaves) two in
        let left = length-take k leaves (omega (arith, bounds)) in
        let right = length-drop k leaves in
        let node = leaf_hash sha256 x in
        let size : length node ≡ 32 = unfold leaf_hash in sized (0 ∷ x) in
        elim (le_or_lt k i) [
          | inl le ↦
              let (b, f, same) =
                then_node-some _ _ _
                  (sym (ascend_right sha256 (length leaves) i node last rest two le) ∙ e) in
              elim (node_hash-right (Hashed sha256 leaves) last b _ _ (of_node leaves two)
                (ascend-length _ _ node b rest size f ∙ sym (length-mth (drop k leaves)))
                (same ∙ mth-split sha256 leaves two)) [
                  | inr collision ↦ inr collision
                  | inl (p, q) ↦
                      let sub = rw (sym right, q) at f in
                      elim (ascend_sound (i - k) x (drop k leaves) rest (omega (arith, right))
                        sub) [
                          | inr (x', y', along, differ, one) ↦
                              inr (x', y', in_right leaves y' two along, differ, one)
                          | inl found ↦ inl (sym (get_or-drop k i leaves [] le) ∙ found)
                        ]
                ]
          | inr less ↦
              let (b, f, same) =
                then_node-some _ _ _
                  (sym (ascend_left sha256 (length leaves) i node last rest two less) ∙ e) in
              elim (node_hash-left (Hashed sha256 leaves) b last _ _ (of_node leaves two)
                (ascend-length _ _ node b rest size f ∙ sym (length-mth (take k leaves)))
                (same ∙ mth-split sha256 leaves two)) [
                  | inr collision ↦ inr collision
                  | inl (p, q) ↦
                      let sub =
                        subst (λ n. ascend sha256 n i node rest ≡ some (mth sha256 (take k leaves)))
                          (sym left) (rw p at f) in
                      elim (ascend_sound i x (take k leaves) rest (omega (arith, left)) sub) [
                        | inr (x', y', along, differ, one) ↦
                            inr (x', y', in_left leaves y' two along, differ, one)
                        | inl found ↦ inl (sym (get_or-take k i leaves [] less) ∙ found)
                      ]
                ]
        ]
  ]

  -- If digests all have 32 entries, of whatever size: a path that leads from a leaf at an index to
  -- the root over the leaves is of the leaf at that index, whatever its siblings are, or some input has
  -- the digest of another one, which _mth hashes over the leaves.
  pub reconstruct_root_sound :
      (i : ℕ) (x : Bytes) (leaves path : List Bytes)
      → reconstruct_root sha256 x (pos i) (length leaves) path ≡ some (mth sha256 leaves)
      → ((i < length leaves) × (get_or leaves i [] ≡ x))
        ⊎ SecondPreimage sha256 (Hashed sha256 leaves)
  unfolding reconstruct_root
  reconstruct_root_sound i x leaves path e = elim (le_or_lt (length leaves) i) [
    | inl le ↦ let over : leb (length leaves) i ≡ true = ground arith in absurd (cc (rw over at e))
    | inr lt ↦
        let inside : leb (length leaves) i ≡ false = ground arith in
        let walk = rw inside at e in
        let up =
          subst
            (λ p.
              reconstruct_on sha256 i (length leaves - 1) (leaf_hash sha256 x) p
              ≡ some (mth sha256 leaves))
            (sym (backwards-backwards path)) walk in
        elim (ascend_sound i x leaves (backwards path) lt (
          sym (reconstruct-ascend sha256 (length leaves) i (leaf_hash sha256 x) (backwards path) lt)
          ∙ up)) [ inl found ↦ inl (lt, found) | inr collision ↦ inr collision ]
  ]

-- The audit path of a leaf leads from the leaf to the root.
pub audit_path-reconstruct_root :
    (sha256 : Bytes → Bytes) (i : ℕ) (leaves : List Bytes)
    → i < length leaves
    → reconstruct_root sha256
        (get_or leaves i [])
        (pos i)
        (length leaves)
        (audit_path sha256 i leaves)
      ≡ some (mth sha256 leaves)
unfolding reconstruct_root audit_path
audit_path-reconstruct_root sha256 i leaves lt =
    let inside : leb (length leaves) i ≡ false = ground arith in
    let path = audit_path sha256 i leaves in
    rw inside (
      subst
        (λ p.
          reconstruct_on sha256 i (length leaves - 1) (leaf_hash sha256 (get_or leaves i [])) p
          ≡ some (mth sha256 leaves))
        (backwards-backwards path)
        (reconstruct-ascend sha256 (length leaves) i _ (backwards path) lt
          ∙ audit_path_on-ascend sha256 (length leaves) i leaves (omega arith) lt))
