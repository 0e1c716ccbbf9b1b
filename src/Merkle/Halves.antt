-- ===== src/Merkle/Halves.antt =====
-- The walk of `reconstruct_root` along a path that ends at the node of a split: below the split it
-- is the walk in one of the two halves.
use unlearn_shield.Prelude.{
  ℕ, zero, suc, ◌+◌, ◌-◌, ◌/◌, ◌^◌, ◌≤◌, ◌<◌, ◌≡◌, refl, sym, ap, ◌∙◌, inl, inr, false, List, [],
  ◌∷◌, ◌++◌, Option, none, some, if◌then◌else◌, ◌==◌, arith,
}
use unlearn_shield.Python.Bytes.{Bytes}
use unlearn_shield.Merkle.Tree.{turns_right, next, node_hash, reconstruct_on}
use unlearn_shield.Merkle.Split.{pow_suc, pow_pos, le_or_lt}
use unlearn_shield.Merkle.Walk.{next_apart, next_top, next_pow, next-IsOffset}

module _ (sha256 : Bytes → Bytes) where
  -- The node of the other half, after what the walk in one half has made.
  abbrev pub then_node : (Bytes → Bytes) → Option Bytes → Option Bytes
  then_node f none = none
  then_node f (some node) = some (f node)

  abbrev turned : ℕ → ℕ → Bytes → Bytes → Bytes
  turned fn sn node sibling =
      if turns_right fn sn then node_hash sha256 sibling node else node_hash sha256 node sibling

  round :
      (fn sn : ℕ) (node sibling : Bytes) (path : List Bytes)
      → 0 < sn
      → reconstruct_on sha256 fn sn node (sibling ∷ path)
        ≡ reconstruct_on sha256 (next fn sn).0 (next fn sn).1 (turned fn sn node sibling) path
  unfolding reconstruct_on
  round fn sn node sibling path lt =
      let nonzero : (sn == 0) ≡ false = ground arith in rw nonzero refl

  over :
      (fn : ℕ) (node sibling : Bytes) (path : List Bytes)
      → reconstruct_on sha256 fn 0 node (sibling ∷ path) ≡ none
  unfolding reconstruct_on
  over fn node sibling path = refl

  pub reconstruct_short :
      (fn sn : ℕ) (node : Bytes) → 0 < sn → reconstruct_on sha256 fn sn node [] ≡ none
  unfolding reconstruct_on
  reconstruct_short fn sn node lt =
      let nonzero : (sn == 0) ≡ false = ground arith in rw nonzero refl

  pub reconstruct_end : (fn : ℕ) (node : Bytes) → reconstruct_on sha256 fn 0 node [] ≡ some node
  unfolding reconstruct_on
  reconstruct_end fn node = refl

  -- One more sibling is too many, once the pair is (0, 0).
  pub reconstruct_long :
      (fn : ℕ) (node : Bytes) (path : List Bytes) (last : Bytes)
      → reconstruct_on sha256 fn 0 node (path ++ (last ∷ [])) ≡ none
  reconstruct_long fn node [] last = over fn node last []
  reconstruct_long fn node (s ∷ path) last = over fn node s _

  -- A walk that starts in the first half.
  pub reconstruct_left :
      (m f s : ℕ) (node : Bytes) (path : List Bytes) (last : Bytes)
      → f < 2 ^ m
      → 2 ^ m ≤ s
      → s < 2 ^ m + 2 ^ m
      → reconstruct_on sha256 f s node (path ++ (last ∷ []))
        ≡ then_node (λ x. node_hash sha256 x last) (reconstruct_on sha256 f (2 ^ m - 1) node path)
  unfolding turns_right
  reconstruct_left zero f s node [] last lt low high =
      let f0 : f ≡ 0 = omega arith in
      let s1 : s ≡ 1 = omega arith in
      rw (f0, s1)
        (round 0 1 node last [] (omega arith)
          ∙ rw next_top (reconstruct_end 0 _)
          ∙ sym (ap (then_node _) (reconstruct_end 0 node)))
  reconstruct_left zero f s node (p ∷ path) last lt low high =
      let f0 : f ≡ 0 = omega arith in
      let s1 : s ≡ 1 = omega arith in
      rw (f0, s1)
        (round 0 1 node p (path ++ (last ∷ [])) (omega arith)
          ∙ rw next_top (reconstruct_long 0 _ path last)
          ∙ sym (ap (then_node _) (over 0 node p path)))
  reconstruct_left (suc m) f s node [] last lt low high =
      let twice = pow_suc m in
      let some_m = pow_pos m in
      let (t, e) = next_apart f s (inl (omega arith)) in
      round f s node last [] (omega (arith, twice))
      ∙ rw e (reconstruct_short _ _ _ (omega (arith, twice)))
      ∙ sym (ap (then_node _) (reconstruct_short f (2 ^ suc m - 1) node (omega (arith, twice))))
  reconstruct_left (suc m) f s node (p ∷ path) last lt low high =
      let twice = pow_suc m in
      let some_m = pow_pos m in
      let (t, e) = next_apart f s (inl (omega arith)) in
      let (t', e') = next_apart f (2 ^ suc m - 1) (elim (le_or_lt (2 ^ suc m - 1) f) [
        | inl le ↦ inr (omega (arith, twice))
        | inr lt ↦ inl lt
      ]) in
      let half : (2 ^ suc m - 1) / 2 ≡ 2 ^ m - 1 = omega (arith, twice) in
      rw
        (
          round f s node p (path ++ (last ∷ [])) (omega (arith, twice)),
          round f (2 ^ suc m - 1) node p path (omega (arith, twice)),
          t,
          t',
          e,
          e',
          half,
        )
        (reconstruct_left m (f / 2) (s / 2) _ path last (omega (arith, twice))
          (omega (arith, twice)) (omega (arith, twice)))

  -- A walk that starts in the second half.
  pub reconstruct_right :
      (m f s : ℕ) (node : Bytes) (path : List Bytes) (last : Bytes)
      → f ≤ s
      → s < 2 ^ m
      → reconstruct_on sha256 (2 ^ m + f) (2 ^ m + s) node (path ++ (last ∷ []))
        ≡ then_node (λ x. node_hash sha256 last x) (reconstruct_on sha256 f s node path)
  reconstruct_right m f s node [] last low high = elim (le_or_lt s 0) [
    | inl le ↦
        let f0 : f ≡ 0 = omega arith in
        let s0 : s ≡ 0 = omega arith in
        let whole : 2 ^ m + 0 ≡ 2 ^ m = omega arith in
        let (t, e) = next_pow m in
        rw
          (
            f0,
            s0,
            whole,
            round (2 ^ m) (2 ^ m) node last [] (pow_pos m),
            t,
            e,
            reconstruct_end 0 node,
          )
          (reconstruct_end 0 _)
    | inr lt ↦
        let (t, (k, e, low', high')) = next-IsOffset m f s lt low high in
        rw
          (
            round (2 ^ m + f) (2 ^ m + s) node last [] (omega arith),
            reconstruct_short f s node lt,
            t,
            e,
          )
          (reconstruct_short _ _ _ (omega (arith, pow_pos k)))
  ]
  reconstruct_right m f s node (p ∷ path) last low high = elim (le_or_lt s 0) [
    | inl le ↦
        let f0 : f ≡ 0 = omega arith in
        let s0 : s ≡ 0 = omega arith in
        let whole : 2 ^ m + 0 ≡ 2 ^ m = omega arith in
        let (t, e) = next_pow m in
        rw
          (
            f0,
            s0,
            whole,
            round (2 ^ m) (2 ^ m) node p (path ++ (last ∷ [])) (pow_pos m),
            e,
            over 0 node p path,
          )
          (reconstruct_long 0 _ path last)
    | inr lt ↦
        let (t, (k, e, low', high')) = next-IsOffset m f s lt low high in
        rw
          (
            round (2 ^ m + f) (2 ^ m + s) node p (path ++ (last ∷ [])) (omega arith),
            round f s node p path lt,
            t,
            e,
          )
          (reconstruct_right k (next f s).0 (next f s).1 _ path last low' high')
  ]
