-- ===== src/Smt/Climbing.antt =====
-- How the root that `verify_absence` recomputes depends on the siblings.
use unlearn_shield.Prelude.{ℕ, zero, suc, ◌≤◌, ◌<◌, ◌≡◌, refl, true, false, [], ◌∷◌, none, arith}
use unlearn_shield.Python.Bytes.{Bytes}
use unlearn_shield.Smt.Hash.{depth_bits, bit, node_hash, default_hash}
use unlearn_shield.Smt.Proof.{Siblings, sibling_at, sibling_or, climb}
use unlearn_shield.Smt.Keys.{IsKey}

-- Siblings at depths from `lo` on, in order, each a digest.
abbrev pub Increasing : ℕ → Siblings → Type 0
Increasing lo [] = Unit
Increasing lo ((d, h) ∷ rest) = (lo ≤ d) × (d < depth_bits) × IsKey h × Increasing (suc d) rest

pub Increasing-weaken : (lo : ℕ) (s : Siblings) → Increasing (suc lo) s → Increasing lo s
Increasing-weaken lo [] h = tt
Increasing-weaken lo ((d, o) ∷ rest) h = (omega arith, h.1, h.2, h.3)

pub sibling_at_below : (i lo : ℕ) (s : Siblings) → i < lo → Increasing lo s → sibling_at i s ≡ none
unfolding sibling_at
sibling_at_below i lo [] p h = refl
sibling_at_below i lo ((d, o) ∷ rest) p h = ground (arith, sibling_at_below i (suc d) rest)

module _ (sha256 : Bytes → Bytes) where
  pub climb_right :
      (n d : ℕ) (t : Bytes) (s : Siblings)
      → bit t d ≡ true
      → climb sha256 (suc n) d t s
        ≡ node_hash sha256 (sibling_or sha256 n d s) (climb sha256 n (suc d) t s)
  unfolding climb
  climb_right n d t s e = rw e

  pub climb_left :
      (n d : ℕ) (t : Bytes) (s : Siblings)
      → bit t d ≡ false
      → climb sha256 (suc n) d t s
        ≡ node_hash sha256 (climb sha256 n (suc d) t s) (sibling_or sha256 n d s)
  unfolding climb
  climb_left n d t s e = rw e

  -- Only the siblings below are looked at.
  pub climb_ext :
      (n d : ℕ) (t : Bytes) (a b : Siblings)
      → ((i : ℕ) → d ≤ i → sibling_at i a ≡ sibling_at i b)
      → climb sha256 n d t a ≡ climb sha256 n d t b
  unfolding climb sibling_or
  climb_ext zero d t a b h = refl
  climb_ext (suc n) d t a b h =
      let below = climb_ext n (suc d) t a b (λ i p. h i (omega arith)) in
      rw (below, h d (omega arith))

  pub climb-nil : (n d : ℕ) (t : Bytes) → climb sha256 n d t [] ≡ default_hash sha256 n
  unfolding climb sibling_or sibling_at default_hash
  climb-nil zero d t = refl
  climb-nil (suc n) d t = rw (climb-nil n (suc d) t) (ground arith)

  pub climb_skip :
      (n d i : ℕ) (t o : Bytes) (s : Siblings)
      → i < d
      → climb sha256 n d t ((i, o) ∷ s) ≡ climb sha256 n d t s
  climb_skip n d i t o s p = climb_ext n d t ((i, o) ∷ s) s λ j q. unfold sibling_at in ground arith

  pub sibling_or-none :
      (n d : ℕ) (s : Siblings)
      → sibling_at d s ≡ none
      → sibling_or sha256 n d s ≡ default_hash sha256 n
  unfolding sibling_or
  sibling_or-none n d s e = rw e

  pub sibling_or_here :
      (n d : ℕ) (o : Bytes) (s : Siblings) → sibling_or sha256 n d ((d, o) ∷ s) ≡ o
  unfolding sibling_or sibling_at
  sibling_or_here n d o s = ground arith
