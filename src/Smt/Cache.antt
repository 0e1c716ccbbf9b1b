-- ===== src/Smt/Cache.antt =====
-- verify/smt.py: `_tree_cache`, `tree_for_shard`, `cache_tree`, `clear_tree_cache`. The dict is an
-- association list, the newest entry of a shard first.
use unlearn_shield.Prelude.{
  ℕ, ◌≡◌, refl, sym, ap, ap₂, ◌∙◌, ◌⊎◌, inl, inr, true, false, List, [], ◌∷◌, subst, Option, none,
  some, length, length-append, All, Bool-cases, Option-cases, arith, ◌==◌, if◌then◌else◌,
}
use unlearn_shield.Prelude.Result.{Result, ok, ◌>>=◌}
use unlearn_shield.Python.Bytes.{Bytes, Text, bytes_eq, bytes_eq-eq}
use unlearn_shield.Smt.Hash.{Collision, join, fingerprint_of}
use unlearn_shield.Smt.Tree.{SparseMerkleTree, new_tree, fingerprint}
use unlearn_shield.Smt.Keys.{IsRef, IsKey, key_set, keys_of-IsRef, key_set-IsKey}
use unlearn_shield.Smt.Soundness.{digest-cases, append_inj_of_length}
use unlearn_shield.Smt.Trees.{IsTree, tree_of, tree_of-IsTree, new_tree-IsRef}

abbrev pub Cache : Type 0
Cache = List (ℕ × SparseMerkleTree)

-- `_tree_cache.get(shard)`
unfoldable pub cached : ℕ → Cache → Option SparseMerkleTree
cached shard [] = none
cached shard ((k, tree) ∷ rest) = if k == shard then some tree else cached shard rest

unfoldable pub cache_tree : ℕ → SparseMerkleTree → Cache → Cache
cache_tree shard tree cache = (shard, tree) ∷ cache

unfoldable pub clear_tree_cache : Cache → Cache
clear_tree_cache cache = []

module _ (sha256 : Bytes → Bytes) where
  unfoldable pub tree_for_shard : Cache → ℕ → List Text → Result SparseMerkleTree
  tree_for_shard cache shard refs = do
    fp ← fingerprint_of sha256 refs
    elim (cached shard cache) [
      | none ↦ new_tree sha256 refs
      | some tree ↦ if bytes_eq (fingerprint sha256 tree) fp then ok tree else new_tree sha256 refs
    ]

  -- Every tree in the cache is well formed; which set it is over does not matter.
  abbrev pub IsCache : Cache → Type 0
  IsCache = All (λ e. IsTree sha256 e.1)

  cached-IsTree :
      (shard : ℕ) (cache : Cache) (tree : SparseMerkleTree)
      → IsCache cache
      → cached shard cache ≡ some tree
      → IsTree sha256 tree
  unfolding cached
  cached-IsTree shard [] tree h e = cc
  cached-IsTree shard ((k, t) ∷ rest) tree h e = elim (Bool-cases (k == shard)) [
    | inl same ↦
        let found : t ≡ tree = cc (rw (same, cached) at e) in subst (IsTree sha256) found h.0
    | inr other ↦ cached-IsTree shard rest tree h.1 (rw (other, cached) at e)
  ]

  -- Storing a tree keeps the cache well formed, and the next lookup of its shard finds it.
  pub cache_tree-IsCache :
      (shard : ℕ) (tree : SparseMerkleTree) (cache : Cache)
      → IsTree sha256 tree
      → IsCache cache
      → IsCache (cache_tree shard tree cache)
        × (cached shard (cache_tree shard tree cache) ≡ some tree)
  unfolding cache_tree cached
  cache_tree-IsCache shard tree cache t h = ((t, h), ground arith)

-- Keys of one length are told apart in their concatenation.
join-inj : (a b : List Bytes) → All IsKey a → All IsKey b → join a ≡ join b → a ≡ b
unfolding join
join-inj [] [] ha hb e = refl
join-inj [] (y ∷ b) ha hb e = absurd (omega (arith, ap length e, length-append y (join b), hb.0.0))
join-inj (x ∷ a) [] ha hb e = absurd (omega (arith, ap length e, length-append x (join a), ha.0.0))
join-inj (x ∷ a) (y ∷ b) ha hb e =
    let (p, q) = append_inj_of_length x (join a) y (join b) (ha.0.0 ∙ sym hb.0.0) e in
    ap₂ ◌∷◌ p (join-inj a b ha.1 hb.1 q)

module _ (sha256 : Bytes → Bytes) where
  fingerprint_keys :
      (tree : SparseMerkleTree) (ks : List Bytes)
      → All IsKey tree.keys
      → All IsKey ks
      → bytes_eq (fingerprint sha256 tree) (sha256 (join ks)) ≡ true
      → (tree.keys ≡ ks) ⊎ Collision sha256
  unfolding fingerprint
  fingerprint_keys tree ks h k e = elim (digest-cases sha256 _ _ (bytes_eq-eq _ _ e)) [
    | inl same ↦ inl (join-inj tree.keys ks h k same)
    | inr collision ↦ inr collision
  ]

  -- What `tree_for_shard` may return for the references `refs`.
  abbrev pub Serves : List Text → Result SparseMerkleTree → Type 0
  Serves refs result =
      (tree : SparseMerkleTree) × (result ≡ ok tree)
      × IsTree sha256 tree
      × ((tree.keys ≡ key_set refs) ⊎ Collision sha256)

  module _ (cache : Cache) (shard : ℕ) (refs : List Text) (h : All IsRef refs) where
    fresh_tree :
        tree_for_shard sha256 cache shard refs ≡ new_tree sha256 refs
        → Serves refs (tree_for_shard sha256 cache shard refs)
    fresh_tree e = (
      tree_of sha256 refs,
      e ∙ new_tree-IsRef sha256 refs h,
      tree_of-IsTree sha256 refs h,
      inl refl,
    )

    tree_for_shard_miss :
        cached shard cache ≡ none → tree_for_shard sha256 cache shard refs ≡ new_tree sha256 refs
    unfolding tree_for_shard fingerprint_of
    tree_for_shard_miss e = rw (keys_of-IsRef refs h, e)

    module _ (tree : SparseMerkleTree) (e : cached shard cache ≡ some tree) where
      tree_for_shard_stale :
          bytes_eq (fingerprint sha256 tree) (sha256 (join (key_set refs))) ≡ false
          → tree_for_shard sha256 cache shard refs ≡ new_tree sha256 refs
      unfolding tree_for_shard fingerprint_of
      tree_for_shard_stale f = rw (keys_of-IsRef refs h, e, f)

      tree_for_shard_hit :
          bytes_eq (fingerprint sha256 tree) (sha256 (join (key_set refs))) ≡ true
          → tree_for_shard sha256 cache shard refs ≡ ok tree
      unfolding tree_for_shard fingerprint_of
      tree_for_shard_hit f = rw (keys_of-IsRef refs h, e, f)

  -- The fingerprint of the tree that the cache holds for the shard does not collide with that of the
  -- references.
  abbrev pub IsFaithful : Cache → ℕ → List Text → Type 0
  IsFaithful cache shard refs =
      (tree : SparseMerkleTree)
      → cached shard cache ≡ some tree
      → bytes_eq (fingerprint sha256 tree) (sha256 (join (key_set refs))) ≡ true
      → tree.keys ≡ key_set refs

  -- Then the tree that is returned is over the references.
  pub tree_for_shard-keys :
      (cache : Cache) (shard : ℕ) (refs : List Text)
      → IsCache sha256 cache
      → All IsRef refs
      → IsFaithful cache shard refs
      → (tree : SparseMerkleTree) × (tree_for_shard sha256 cache shard refs ≡ ok tree)
        × IsTree sha256 tree
        × (tree.keys ≡ key_set refs)
  tree_for_shard-keys cache shard refs c h faithful = elim (Option-cases (cached shard cache)) [
    | inl miss ↦ (
      tree_of sha256 refs,
      tree_for_shard_miss cache shard refs h miss ∙ new_tree-IsRef sha256 refs h,
      tree_of-IsTree sha256 refs h,
      refl,
    )
    | inr (tree, found) ↦
        elim (Bool-cases (bytes_eq (fingerprint sha256 tree) (sha256 (join (key_set refs))))) [
          | inl hit ↦ (
            tree,
            tree_for_shard_hit cache shard refs h tree found hit,
            cached-IsTree sha256 shard cache tree c found,
            faithful tree found hit,
          )
          | inr stale ↦ (
            tree_of sha256 refs,
            tree_for_shard_stale cache shard refs h tree found stale ∙ new_tree-IsRef sha256 refs h,
            tree_of-IsTree sha256 refs h,
            refl,
          )
        ]
  ]

  -- From any cache of well-formed trees, stale or not, `tree_for_shard` returns a well-formed tree
  -- over the current references, or the hash has a collision.
  pub tree_for_shard-Serves :
      (cache : Cache) (shard : ℕ) (refs : List Text)
      → IsCache sha256 cache
      → All IsRef refs
      → Serves refs (tree_for_shard sha256 cache shard refs)
  tree_for_shard-Serves cache shard refs c h = elim (Option-cases (cached shard cache)) [
    | inl miss ↦ fresh_tree cache shard refs h (tree_for_shard_miss cache shard refs h miss)
    | inr (tree, found) ↦
        let w = cached-IsTree sha256 shard cache tree c found in
        elim (Bool-cases (bytes_eq (fingerprint sha256 tree) (sha256 (join (key_set refs))))) [
          | inl hit ↦ (
            tree,
            tree_for_shard_hit cache shard refs h tree found hit,
            w,
            fingerprint_keys tree (key_set refs) w.full (key_set-IsKey refs h) hit,
          )
          | inr stale ↦
              fresh_tree cache shard refs h
                (tree_for_shard_stale cache shard refs h tree found stale)
        ]
  ]
