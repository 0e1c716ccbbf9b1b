-- ===== src/Smt/Reference.antt =====
-- The full binary tree that verify/smt.py stands for, with no shortcut for empty subtrees and
-- subtrees of one key, and the nodes that represent a part of it.
use unlearn_shield.Prelude.{
  ℕ, zero, suc, ◌≡◌, refl, sym, ap₂, ◌∙◌, Bool, true, false, not, List, [], ◌∷◌, keep, All, Pairs,
  All-keep, All-keep_test, All-map, All-zip, Bool-cases, inl, inr, arith, if◌then◌else◌,
}
use unlearn_shield.Python.Bytes.{Bytes}
use unlearn_shield.Smt.Hash.{bit, leaf, node_hash, empty_leaf, default_hash, singleton_root}
use unlearn_shield.Smt.Tree.{Node, empty, single, branch, hash, lefts, rights, subtree_root, build}

-- The paths of two keys agree on the next `levels` bits.
unfoldable pub agree : ℕ → ℕ → Bytes → Bytes → Bool
agree zero depth a b = true
agree (suc levels) depth a b =
    let rest = agree levels (suc depth) a b in
    if bit a depth then if bit b depth then rest else false else if bit b depth then false else rest

-- No two keys share a leaf of the subtree.
abbrev pub Apart : ℕ → ℕ → List Bytes → Type 0
Apart levels depth = Pairs (λ a b. agree levels depth a b ≡ false)

-- No key has the leaf of `target`.
abbrev pub AwayFrom : ℕ → ℕ → Bytes → List Bytes → Type 0
AwayFrom levels depth target = All (λ k. agree levels depth target k ≡ false)

away_left :
    (n d : ℕ) (t k : Bytes)
    → bit t d ≡ false
    → agree (suc n) d t k ≡ false
    → not (bit k d) ≡ true
    → agree n (suc d) t k ≡ false
unfolding agree
away_left n d t k e h p = ground arith

away_right :
    (n d : ℕ) (t k : Bytes)
    → bit t d ≡ true
    → agree (suc n) d t k ≡ false
    → bit k d ≡ true
    → agree n (suc d) t k ≡ false
unfolding agree
away_right n d t k e h p = ground arith

module _ (n d : ℕ) (t : Bytes) where
  pub AwayFrom-lefts :
      (ks : List Bytes)
      → bit t d ≡ false
      → AwayFrom (suc n) d t ks
      → AwayFrom n (suc d) t (lefts d ks)
  unfolding lefts
  AwayFrom-lefts ks e h =
      All-map _ _ (lefts d ks) (λ k p. away_left n d t k e p.0 p.1)
        (All-zip _ _ (lefts d ks) (All-keep _ (λ k. not (bit k d)) ks h)
          (All-keep_test (λ k. not (bit k d)) ks))

  pub AwayFrom-rights :
      (ks : List Bytes)
      → bit t d ≡ true
      → AwayFrom (suc n) d t ks
      → AwayFrom n (suc d) t (rights d ks)
  unfolding rights
  AwayFrom-rights ks e h =
      All-map _ _ (rights d ks) (λ k p. away_right n d t k e p.0 p.1)
        (All-zip _ _ (rights d ks) (All-keep _ (λ k. bit k d) ks h)
          (All-keep_test (λ k. bit k d) ks))

module _ (n d : ℕ) where
  pub Apart-lefts : (ks : List Bytes) → Apart (suc n) d ks → Apart n (suc d) (lefts d ks)
  unfolding lefts keep
  Apart-lefts [] h = tt
  Apart-lefts (k ∷ ks) h = elim (Bool-cases (bit k d)) [
    | inl e ↦ rw e (Apart-lefts ks h.1)
    | inr e ↦ rw e (AwayFrom-lefts n d k ks e h.0, Apart-lefts ks h.1)
  ]

  pub Apart-rights : (ks : List Bytes) → Apart (suc n) d ks → Apart n (suc d) (rights d ks)
  unfolding rights keep
  Apart-rights [] h = tt
  Apart-rights (k ∷ ks) h = elim (Bool-cases (bit k d)) [
    | inl e ↦ rw e (AwayFrom-rights n d k ks e h.0, Apart-rights ks h.1)
    | inr e ↦ rw e (Apart-rights ks h.1)
  ]

module _ (sha256 : Bytes → Bytes) where
  unfoldable pub reference : ℕ → ℕ → List Bytes → Bytes
  reference zero depth [] = empty_leaf sha256
  reference zero depth (k ∷ ks) = leaf sha256 k
  reference (suc levels) depth ks =
      node_hash sha256 (reference levels (suc depth) (lefts depth ks))
        (reference levels (suc depth) (rights depth ks))

  pub reference-nil : (n d : ℕ) → reference n d [] ≡ default_hash sha256 n
  unfolding reference default_hash lefts rights keep
  reference-nil zero d = refl
  reference-nil (suc n) d =
      ap₂ (node_hash sha256) (reference-nil n (suc d)) (reference-nil n (suc d))

  pub reference-single :
      (n d : ℕ) (k : Bytes) → reference n d (k ∷ []) ≡ singleton_root sha256 n d k
  unfolding reference singleton_root lefts rights keep
  reference-single zero d k = refl
  reference-single (suc n) d k =
      ground (arith, reference-single n (suc d) k, reference-nil n (suc d))

  -- A node that represents the keys `ks` of the subtree at `depth`.
  abbrev pub Repr : Node → ℕ → ℕ → List Bytes → Type 0
  Repr (empty h) levels depth ks = (ks ≡ []) × (h ≡ default_hash sha256 levels)
  Repr (single h k) levels depth ks = (ks ≡ k ∷ []) × (h ≡ singleton_root sha256 levels depth k)
  Repr (branch h l r) zero depth ks = ⊥
  Repr (branch h l r) (suc levels) depth ks =
      Repr l levels (suc depth) (lefts depth ks)
      × Repr r levels (suc depth) (rights depth ks)
      × (h ≡ node_hash sha256 (hash l) (hash r))

  -- Its hash is that of the full tree.
  pub Repr-hash : (t : Node) (n d : ℕ) (ks : List Bytes) → Repr t n d ks → hash t ≡ reference n d ks
  unfolding reference
  Repr-hash (empty h) n d ks r = rw (r.0, r.1) (sym (reference-nil n d))
  Repr-hash (single h k) n d ks r = rw (r.0, r.1) (sym (reference-single n d k))
  Repr-hash (branch h l r) zero d ks p = absurd p
  Repr-hash (branch h l r) (suc n) d ks p =
      (p.2
        ∙ ap₂ (node_hash sha256) (Repr-hash l n (suc d) (lefts d ks) p.0)
            (Repr-hash r n (suc d) (rights d ks) p.1))

  -- `_build` represents the keys it is given.
  pub build-Repr : (n d : ℕ) (ks : List Bytes) → Apart n d ks → Repr (build sha256 n d ks) n d ks
  unfolding build
  build-Repr n d [] h = (refl, refl)
  build-Repr n d (k ∷ []) h = (refl, refl)
  build-Repr zero d (k ∷ l ∷ ks) h = absurd (unfold agree in cc (h.0.0))
  build-Repr (suc n) d (k ∷ l ∷ ks) h = (
    build-Repr n (suc d) (lefts d (k ∷ l ∷ ks)) (Apart-lefts n d (k ∷ l ∷ ks) h),
    build-Repr n (suc d) (rights d (k ∷ l ∷ ks)) (Apart-rights n d (k ∷ l ∷ ks) h),
    refl,
  )

  -- `_subtree_root` is the hash of the node that `_build` makes.
  pub subtree_root-build :
      (n d : ℕ) (ks : List Bytes) → subtree_root sha256 n d ks ≡ hash (build sha256 n d ks)
  unfolding subtree_root build
  subtree_root-build n d [] = refl
  subtree_root-build n d (k ∷ []) = refl
  subtree_root-build zero d (k ∷ l ∷ ks) = refl
  subtree_root-build (suc n) d (k ∷ l ∷ ks) =
      ap₂ (node_hash sha256) (subtree_root-build n (suc d) (lefts d (k ∷ l ∷ ks)))
        (subtree_root-build n (suc d) (rights d (k ∷ l ∷ ks)))
