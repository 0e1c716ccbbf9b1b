-- ===== src/Merkle/Paths.antt =====
-- An independent description of what verify/merkle.py's walk along a path gives: the node over the
-- leaves, its siblings taken from the root down.
use unlearn_shield.Prelude.{
  ℕ, ◌+◌, ◌-◌, ◌^◌, ◌≤◌, ◌<◌, ◌≡◌, refl, sym, ap₂, ◌∙◌, inl, inr, false, List, [], ◌∷◌, ◌++◌,
  Option, none, some, ltb, lt→ltb, if◌then◌else◌, arith,
}
use unlearn_shield.Python.Bytes.{Bytes}
use unlearn_shield.Merkle.Tree.{split, node_hash, reconstruct_on}
use unlearn_shield.Merkle.Split.{split-pow, le_or_lt}
use unlearn_shield.Merkle.Halves.{
  then_node, reconstruct_left, reconstruct_right, reconstruct_end, reconstruct_short,
  reconstruct_long,
}

unfoldable pub backwards : List Bytes → List Bytes
backwards [] = []
backwards (x ∷ xs) = backwards xs ++ (x ∷ [])

pub backwards-append : (xs : List Bytes) (x : Bytes) → backwards (xs ++ (x ∷ [])) ≡ x ∷ backwards xs
unfolding backwards
backwards-append [] x = refl
backwards-append (y ∷ xs) x = rw (backwards-append xs x) refl

pub backwards-backwards : (xs : List Bytes) → backwards (backwards xs) ≡ xs
unfolding backwards
backwards-backwards [] = refl
backwards-backwards (x ∷ xs) = backwards-append (backwards xs) x ∙ rw (backwards-backwards xs) refl

module _ (sha256 : Bytes → Bytes) where
  -- The node over `n` leaves that a path gives, its siblings from the root down.
  unfoldable pub ascend : ℕ → ℕ → Bytes → List Bytes → Option Bytes
  ascend n i node [] = if ltb 1 n then none else some node
  ascend n i node (last ∷ rest) =
      if ltb 1 n
      then (if ltb i (split n)
          then then_node sha256 (λ x. node_hash sha256 x last) (ascend (split n) i node rest)
          else then_node sha256 (λ x. node_hash sha256 last x)
              (ascend (n - split n) (i - split n) node rest))
      else none

  pub ascend_left :
      (n i : ℕ) (node last : Bytes) (rest : List Bytes)
      → 2 ≤ n
      → i < split n
      → ascend n i node (last ∷ rest)
        ≡ then_node sha256 (λ x. node_hash sha256 x last) (ascend (split n) i node rest)
  unfolding ascend
  ascend_left n i node last rest two lt = rw (lt→ltb 1 n two, lt→ltb i (split n) lt) refl

  pub ascend_right :
      (n i : ℕ) (node last : Bytes) (rest : List Bytes)
      → 2 ≤ n
      → split n ≤ i
      → ascend n i node (last ∷ rest)
        ≡ then_node sha256
            (λ x. node_hash sha256 last x)
            (ascend (n - split n) (i - split n) node rest)
  unfolding ascend
  ascend_right n i node last rest two le =
      let over : ltb i (split n) ≡ false = ground arith in rw (lt→ltb 1 n two, over) refl

  pub ascend_one :
      (i : ℕ) (node : Bytes) (rest : List Bytes)
      → ascend 1 i node rest ≡ (elim rest [ [] ↦ some node | _ ∷ _ ↦ none ])
  unfolding ascend
  ascend_one i node [] = refl
  ascend_one i node (last ∷ rest) = refl

  pub ascend_short : (n i : ℕ) (node : Bytes) → 2 ≤ n → ascend n i node [] ≡ none
  unfolding ascend
  ascend_short n i node two = rw (lt→ltb 1 n two) refl

  pub reconstruct-ascend :
      (n i : ℕ) (node : Bytes) (rest : List Bytes)
      → i < n
      → reconstruct_on sha256 i (n - 1) node (backwards rest) ≡ ascend n i node rest
  unfolding backwards
  reconstruct-ascend n i node [] lt = elim (le_or_lt 2 n) [
    | inr one ↦
        let n1 : n ≡ 1 = omega arith in
        rw (n1, ascend_one i node []) (reconstruct_end sha256 i node)
    | inl two ↦
        rw (ascend_short n i node two) (reconstruct_short sha256 i (n - 1) node (omega arith))
  ]
  reconstruct-ascend n i node (last ∷ rest) lt = elim (le_or_lt 2 n) [
    | inr one ↦
        let n1 : n ≡ 1 = omega arith in
        rw (n1, ascend_one i node (last ∷ rest))
          (reconstruct_long sha256 i node (backwards rest) last)
    | inl two ↦
        let (m, e, low, high) = split-pow n two in
        elim (le_or_lt (split n) i) [
          | inl right ↦
              let index : i ≡ 2 ^ m + (i - split n) = omega (arith, e) in
              let size : n - 1 ≡ 2 ^ m + (n - split n - 1) = omega (arith, e, low) in
              ap₂ (λ a b. reconstruct_on sha256 a b node (backwards rest ++ (last ∷ []))) index size
              ∙ reconstruct_right sha256 m (i - split n) (n - split n - 1) node (backwards rest)
                  last (omega arith) (omega (arith, e, low, high))
              ∙ rw
                  (reconstruct-ascend (n - split n) (i - split n) node rest (omega (arith, e, low)))
                  (sym (ascend_right n i node last rest two right))
          | inr left ↦
              let half : 2 ^ m - 1 ≡ split n - 1 = omega (arith, e) in
              reconstruct_left sha256 m i (n - 1) node (backwards rest) last (omega (arith, e)) low
                high
              ∙ rw (half, reconstruct-ascend (split n) i node rest left)
                  (sym (ascend_left n i node last rest two left))
        ]
  ]
