-- ===== src/Smt/Soundness.antt =====
-- A verified absence proof about a member of the tree exhibits a collision with an input of the tree.
use mathlib.Core.Option.{get_or}
use unlearn_shield.Prelude.{
  ℕ, zero, suc, ◌≡◌, refl, sym, ◌∙◌, ◌⊎◌, inl, inr, List, [], ◌∷◌, ◌++◌, some, length, All, In,
  In-keep, if◌then◌else◌, Bool-cases, Option-cases, arith,
}
use unlearn_shield.Python.Bytes.{Bytes, codes, bytes_eq, bytes_eq-eq, bytes_eq_iff}
use unlearn_shield.Smt.Hash.{IsSized, Collision, bit, leaf, node_hash, empty_leaf, default_hash}
use unlearn_shield.Smt.Tree.{lefts, rights}
use unlearn_shield.Smt.Proof.{Siblings, sibling_at, sibling_or, climb}
use unlearn_shield.Smt.Reference.{reference}

-- Two byte strings of one length, cut at one place.
pub append_inj_of_length :
    (a b c d : Bytes) → length a ≡ length c → a ++ b ≡ c ++ d → (a ≡ c) × (b ≡ d)
append_inj_of_length [] b [] d l e = (refl, e)
append_inj_of_length [] b (y ∷ c) d l e = absurd (omega arith)
append_inj_of_length (x ∷ a) b [] d l e = absurd (omega arith)
append_inj_of_length (x ∷ a) b (y ∷ c) d l e =
    let (p, q) = append_inj_of_length a b c d (omega arith) (cc) in ((cc), q)

-- Every sibling is as long as a digest.
abbrev pub AreDigests : Siblings → Type 0
AreDigests = All (λ s. length s.1 ≡ 32)

sibling_at-length :
    (d : ℕ) (siblings : Siblings) (s : Bytes)
    → AreDigests siblings
    → sibling_at d siblings ≡ some s
    → length s ≡ 32
unfolding sibling_at
sibling_at-length d [] s h e = cc
sibling_at-length d ((i, t) ∷ rest) s h e = ground (arith, sibling_at-length d rest s h.1)

-- Two inputs with one digest, of which one is in the first list and one in the second.
abbrev pub CollisionOf : (Bytes → Bytes) → List Bytes → List Bytes → Type 0
CollisionOf sha256 xs ys =
    (a : Bytes) × (b : Bytes) × In a xs × In b ys × ¬ (a ≡ b) × (sha256 a ≡ sha256 b)

same-cases : (a b : Bytes) → (a ≡ b) ⊎ ¬ (a ≡ b)
same-cases a b = elim (Bool-cases (bytes_eq a b)) [
  | inl same ↦ inl (bytes_eq-eq a b same)
  | inr differ ↦ inr (λ p. cc ((bytes_eq_iff a b).1 p))
]

module _ (sha256 : Bytes → Bytes) where
  -- What `climb` hashes.
  unfoldable pub climbed : ℕ → ℕ → Bytes → Siblings → List Bytes
  climbed zero d t siblings = (2 ∷ codes "unlearnshield-empty") ∷ []
  climbed (suc n) d t siblings =
      let node = climb sha256 n (suc d) t siblings in
      let sibling = sibling_or sha256 n d siblings in
      (if bit t d then 1 ∷ (sibling ++ node) else 1 ∷ (node ++ sibling))
      ∷ climbed n (suc d) t siblings

  -- What the full tree over some keys hashes on the way from the root to the leaf of a key.
  unfoldable pub hashed_along : ℕ → ℕ → Bytes → List Bytes → List Bytes
  unfolding lefts rights
  hashed_along zero d t [] = (2 ∷ codes "unlearnshield-empty") ∷ []
  hashed_along zero d t (k ∷ ks) = (0 ∷ k) ∷ []
  hashed_along (suc n) d t ks =
      (1 ∷ (reference sha256 n (suc d) (lefts d ks) ++ reference sha256 n (suc d) (rights d ks)))
      ∷ hashed_along n (suc d) t (if bit t d then rights d ks else lefts d ks)

  -- Equal digests come from equal inputs, or are a collision.
  pub digest-cases : (a b : Bytes) → sha256 a ≡ sha256 b → (a ≡ b) ⊎ Collision sha256
  digest-cases a b e = elim (Bool-cases (bytes_eq a b)) [
    | inl same ↦ inl (bytes_eq-eq a b same)
    | inr differ ↦ inr (a, b, (λ p. cc ((bytes_eq_iff a b).1 p)), e)
  ]

module _ (sha256 : Bytes → Bytes) (sized : IsSized sha256) where
  pub length-node_hash : (a b : Bytes) → length (node_hash sha256 a b) ≡ 32
  unfolding node_hash
  length-node_hash a b = sized (1 ∷ (a ++ b))

  pub length-empty_leaf : length (empty_leaf sha256) ≡ 32
  unfolding empty_leaf
  length-empty_leaf = sized _

  pub length-default_hash : (n : ℕ) → length (default_hash sha256 n) ≡ 32
  unfolding default_hash
  length-default_hash zero = length-empty_leaf
  length-default_hash (suc n) = length-node_hash _ _

  length-reference : (n d : ℕ) (ks : List Bytes) → length (reference sha256 n d ks) ≡ 32
  unfolding reference leaf
  length-reference zero d [] = length-empty_leaf
  length-reference zero d (k ∷ ks) = sized (0 ∷ k)
  length-reference (suc n) d ks = length-node_hash _ _

  length-climb :
      (n d : ℕ) (t : Bytes) (siblings : Siblings) → length (climb sha256 n d t siblings) ≡ 32
  unfolding climb
  length-climb zero d t siblings = length-empty_leaf
  length-climb (suc n) d t siblings = elim (Bool-cases (bit t d)) [
    | inl e ↦ rw e (length-node_hash _ _)
    | inr e ↦ rw e (length-node_hash _ _)
  ]

  length-sibling_or :
      (n d : ℕ) (siblings : Siblings)
      → AreDigests siblings
      → length (sibling_or sha256 n d siblings) ≡ 32
  unfolding sibling_or
  length-sibling_or n d siblings h = elim (Option-cases (sibling_at d siblings)) [
    | inl e ↦ rw (e, get_or) (length-default_hash n)
    | inr (s, e) ↦ rw (e, get_or) (sibling_at-length d siblings s h e)
  ]

  -- The path of a member cannot be recomputed from an empty leaf.
  pub climb_sound :
      (n d : ℕ) (t : Bytes) (siblings : Siblings) (ks : List Bytes)
      → AreDigests siblings
      → In t ks
      → climb sha256 n d t siblings ≡ reference sha256 n d ks
      → CollisionOf sha256 (climbed sha256 n d t siblings) (hashed_along sha256 n d t ks)
  unfolding climb reference lefts rights climbed hashed_along leaf empty_leaf node_hash
  climb_sound zero d t siblings [] h m e = absurd m
  climb_sound zero d t siblings (k ∷ ks) h m e =
      (2 ∷ codes "unlearnshield-empty", 0 ∷ k, inl refl, inl refl, (λ p. ground arith), e)
  climb_sound (suc n) d t siblings ks h m e = elim (Bool-cases (bit t d)) [
    | inl right ↦
        let sibling = sibling_or sha256 n d siblings in
        let node = climb sha256 n (suc d) t siblings in
        let left_hash = reference sha256 n (suc d) (lefts d ks) in
        let right_hash = reference sha256 n (suc d) (rights d ks) in
        elim (same-cases (1 ∷ (sibling ++ node)) (1 ∷ (left_hash ++ right_hash))) [
          | inr differ ↦ rw right (_, _, inl refl, inl refl, differ, rw right at e)
          | inl same ↦
              let (p, q) =
                append_inj_of_length sibling node left_hash right_hash
                  (length-sibling_or n d siblings h ∙ sym (length-reference n (suc d) (lefts d ks)))
                  (cc same) in
              let (x, y, on, along, differ, one) =
                climb_sound n (suc d) t siblings (rights d ks) h (In-keep _ t ks m right) q in
              rw right (x, y, inr on, inr along, differ, one)
        ]
    | inr left ↦
        let sibling = sibling_or sha256 n d siblings in
        let node = climb sha256 n (suc d) t siblings in
        let left_hash = reference sha256 n (suc d) (lefts d ks) in
        let right_hash = reference sha256 n (suc d) (rights d ks) in
        elim (same-cases (1 ∷ (node ++ sibling)) (1 ∷ (left_hash ++ right_hash))) [
          | inr differ ↦ rw left (_, _, inl refl, inl refl, differ, rw left at e)
          | inl same ↦
              let (p, q) =
                append_inj_of_length node sibling left_hash right_hash
                  (length-climb n (suc d) t siblings
                    ∙ sym (length-reference n (suc d) (lefts d ks)))
                  (cc same) in
              let (x, y, on, along, differ, one) =
                climb_sound n (suc d) t siblings (lefts d ks) h (In-keep _ t ks m (rw left)) p in
              rw left (x, y, inr on, inr along, differ, one)
        ]
  ]
