-- ===== src/Merkle/Roots.antt =====
-- What a path of verify/merkle.py proves: an audit path leads to the root, and a path that leads to
-- the root is of the leaf at the index, or the hash has a collision.
use unlearn_shield.Prelude.{
  ℕ, zero, suc, ◌-◌, ◌≤◌, ◌<◌, ◌≡◌, refl, ap, ap₂, inl, inr, false, List, [], ◌∷◌, some, length,
  take, drop, length-take, length-drop, get_or, get_or-take, get_or-drop, ltb, lt→ltb, arith,
}
use unlearn_shield.Python.Bytes.{Bytes}
use unlearn_shield.Merkle.Tree.{split, leaf_hash, node_hash, mth_on, mth, audit_path_on}
use unlearn_shield.Merkle.Split.{split-bounds, le_or_lt}
use unlearn_shield.Merkle.Halves.{then_node}
use unlearn_shield.Merkle.Paths.{
  backwards, backwards-append, ascend, ascend_left, ascend_right, ascend_one,
}

module _ (sha256 : Bytes → Bytes) where
  -- The root over two leaves or more; more fuel than there are leaves changes nothing.
  mth_on-enough :
      (f g : ℕ) (leaves : List Bytes)
      → length leaves ≤ f
      → length leaves ≤ g
      → mth_on sha256 f leaves ≡ mth_on sha256 g leaves
  unfolding mth_on
  mth_on-enough f g [] h k = refl
  mth_on-enough f g (x ∷ []) h k = refl
  mth_on-enough zero g (x ∷ y ∷ rest) h k = absurd (omega arith)
  mth_on-enough (suc f) zero (x ∷ y ∷ rest) h k = absurd (omega arith)
  mth_on-enough (suc f) (suc g) (x ∷ y ∷ rest) h k =
      let ls = x ∷ y ∷ rest in
      let bounds = split-bounds (length ls) (omega arith) in
      let left = length-take (split (length ls)) ls (omega (arith, bounds)) in
      let right = length-drop (split (length ls)) ls in
      ap₂ (node_hash sha256)
        (mth_on-enough f g _ (omega (arith, bounds, left)) (omega (arith, bounds, left)))
        (mth_on-enough f g _ (omega (arith, bounds, right)) (omega (arith, bounds, right)))

  pub mth-split :
      (leaves : List Bytes)
      → 2 ≤ length leaves
      → mth sha256 leaves
        ≡ node_hash sha256
            (mth sha256 (take (split (length leaves)) leaves))
            (mth sha256 (drop (split (length leaves)) leaves))
  unfolding mth mth_on
  mth-split [] two = absurd (omega arith)
  mth-split (x ∷ []) two = absurd (omega arith)
  mth-split (x ∷ y ∷ rest) two =
      let ls = x ∷ y ∷ rest in
      let bounds = split-bounds (length ls) (omega arith) in
      let left = length-take (split (length ls)) ls (omega (arith, bounds)) in
      let right = length-drop (split (length ls)) ls in
      ap₂ (node_hash sha256)
        (mth_on-enough (suc (length rest)) _ _ (omega (arith, bounds, left)) (omega arith))
        (mth_on-enough (suc (length rest)) _ _ (omega (arith, bounds, right)) (omega arith))

  audit_path_on_left :
      (fuel i : ℕ) (leaves : List Bytes)
      → 2 ≤ length leaves
      → i < split (length leaves)
      → backwards (audit_path_on sha256 (suc fuel) i leaves)
        ≡ mth sha256 (drop (split (length leaves)) leaves)
          ∷ backwards (audit_path_on sha256 fuel i (take (split (length leaves)) leaves))
  unfolding audit_path_on
  audit_path_on_left fuel i [] two lt = absurd (omega arith)
  audit_path_on_left fuel i (x ∷ []) two lt = absurd (omega arith)
  audit_path_on_left fuel i (x ∷ y ∷ rest) two lt =
      rw (audit_path_on, lt→ltb i _ lt) (backwards-append _ _)

  audit_path_on_right :
      (fuel i : ℕ) (leaves : List Bytes)
      → 2 ≤ length leaves
      → split (length leaves) ≤ i
      → backwards (audit_path_on sha256 (suc fuel) i leaves)
        ≡ mth sha256 (take (split (length leaves)) leaves)
          ∷ backwards (
              audit_path_on sha256 fuel
                (i - split (length leaves))
                (drop (split (length leaves)) leaves))
  unfolding audit_path_on
  audit_path_on_right fuel i [] two le = absurd (omega arith)
  audit_path_on_right fuel i (x ∷ []) two le = absurd (omega arith)
  audit_path_on_right fuel i (x ∷ y ∷ rest) two le =
      let over : ltb i (split (suc (suc (length rest)))) ≡ false = ground arith in
      rw (audit_path_on, over) (backwards-append _ _)

  audit_path_on-one :
      (fuel i : ℕ) (leaves : List Bytes)
      → length leaves < 2
      → i < length leaves
      → ascend sha256
          (length leaves)
          i
          (leaf_hash sha256 (get_or leaves i []))
          (backwards (audit_path_on sha256 fuel i leaves))
        ≡ some (mth sha256 leaves)
  unfolding audit_path_on backwards mth mth_on
  audit_path_on-one fuel i [] one lt = absurd (omega arith)
  audit_path_on-one fuel zero (x ∷ []) one lt = ascend_one sha256 0 _ []
  audit_path_on-one fuel (suc i) (x ∷ []) one lt = absurd (omega arith)
  audit_path_on-one fuel i (x ∷ y ∷ rest) one lt = absurd (omega arith)

  -- The audit path of a leaf leads from the leaf to the root.
  pub audit_path_on-ascend :
      (fuel i : ℕ) (leaves : List Bytes)
      → length leaves ≤ fuel
      → i < length leaves
      → ascend sha256
          (length leaves)
          i
          (leaf_hash sha256 (get_or leaves i []))
          (backwards (audit_path_on sha256 fuel i leaves))
        ≡ some (mth sha256 leaves)
  audit_path_on-ascend zero i leaves h lt = absurd (omega arith)
  audit_path_on-ascend (suc fuel) i leaves h lt = elim (le_or_lt 2 (length leaves)) [
    | inr one ↦ audit_path_on-one (suc fuel) i leaves one lt
    | inl two ↦
        let k = split (length leaves) in
        let bounds = split-bounds (length leaves) two in
        let left = length-take k leaves (omega (arith, bounds)) in
        let right = length-drop k leaves in
        elim (le_or_lt k i) [
          | inl le ↦
              let sub =
                audit_path_on-ascend fuel (i - k) (drop k leaves) (omega (arith, bounds, right))
                  (omega (arith, right)) in
              rw
                (
                  audit_path_on_right fuel i leaves two le,
                  ascend_right sha256 (length leaves) i (leaf_hash sha256 (get_or leaves i []))
                      (mth sha256 (take k leaves))
                      (backwards (audit_path_on sha256 fuel (i - k) (drop k leaves))) two le,
                  mth-split leaves two,
                )
                (ap (then_node sha256 (λ x. node_hash sha256 (mth sha256 (take k leaves)) x))
                  (rw (right, get_or-drop k i leaves [] le) at sub))
          | inr less ↦
              let sub =
                audit_path_on-ascend fuel i (take k leaves) (omega (arith, bounds, left))
                  (omega (arith, left)) in
              rw
                (
                  audit_path_on_left fuel i leaves two less,
                  ascend_left sha256 (length leaves) i (leaf_hash sha256 (get_or leaves i []))
                      (mth sha256 (drop k leaves))
                      (backwards (audit_path_on sha256 fuel i (take k leaves))) two less,
                  mth-split leaves two,
                )
                (ap (then_node sha256 (λ x. node_hash sha256 x (mth sha256 (drop k leaves))))
                  (rw (left, get_or-take k i leaves [] less) at sub))
        ]
  ]
