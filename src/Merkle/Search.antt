-- ===== src/Merkle/Search.antt =====
-- The binary search of verify/merkle.py's `prove_absence`.
use unlearn_shield.Prelude.{
  ℕ, zero, suc, ◌+◌, ◌-◌, ◌/◌, ◌≤◌, ◌<◌, ◌≡◌, refl, inl, inr, true, false, List, [], length, get_or,
  ltb, Bool-cases, arith,
}
use unlearn_shield.Python.Bytes.{Bytes}
use unlearn_shield.Python.Sorting.{Before-trans, IsAscending, Before}
use unlearn_shield.Merkle.Split.{le_or_lt}
use unlearn_shield.Merkle.Leaves.{get_or-Before, comes_before-Before}
use unlearn_shield.Merkle.Proof.{comes_before, bisect_on, bisect}

-- Where the search ends: what is below comes before the target, and the rest does not.
abbrev pub IsBound : Bytes → List Bytes → ℕ → Type 0
IsBound target leaves lo =
    (lo ≤ length leaves)
    × ((i : ℕ) → i < lo → comes_before (get_or leaves i []) target ≡ true)
    × ((i : ℕ) → lo ≤ i → i < length leaves → comes_before (get_or leaves i []) target ≡ false)

pub Before-comes_before : (a b : Bytes) → Before a b → comes_before a b ≡ true
unfolding comes_before
Before-comes_before a b h = rw (comes_before, h) refl

module _ (target : Bytes) (leaves : List Bytes) (ascending : IsAscending leaves) where
  -- What comes before a leaf that comes before the target does so too.
  below :
      (i mid : ℕ)
      → i ≤ mid
      → mid < length leaves
      → comes_before (get_or leaves mid []) target ≡ true
      → comes_before (get_or leaves i []) target ≡ true
  below i mid le lt e = elim (le_or_lt mid i) [
    | inl ge ↦ let same : i ≡ mid = omega arith in rw same e
    | inr less ↦ Before-comes_before _ _ (
        Before-trans _ _ _ (get_or-Before leaves i mid ascending less lt)
          (comes_before-Before _ _ e))
  ]

  above :
      (i mid : ℕ)
      → mid ≤ i
      → i < length leaves
      → comes_before (get_or leaves mid []) target ≡ false
      → comes_before (get_or leaves i []) target ≡ false
  above i mid ge lt f = elim (Bool-cases (comes_before (get_or leaves i []) target)) [
    | inl e ↦ absurd (cc (below mid i ge lt e, f))
    | inr e ↦ e
  ]

  bisect_on-IsBound :
      (fuel lo hi : ℕ)
      → lo ≤ hi
      → hi ≤ length leaves
      → hi - lo ≤ fuel
      → ((i : ℕ) → i < lo → comes_before (get_or leaves i []) target ≡ true)
      → ((i : ℕ) → hi ≤ i → i < length leaves → comes_before (get_or leaves i []) target ≡ false)
      → IsBound target leaves (bisect_on fuel lo hi target leaves)
  unfolding bisect_on
  bisect_on-IsBound zero lo hi le top enough low high =
      (omega arith, low, λ i ge lt. high i (omega arith) lt)
  bisect_on-IsBound (suc fuel) lo hi le top enough low high = elim (Bool-cases (ltb lo hi)) [
    | inr e ↦ rw (bisect_on, e) (omega arith, low, λ i ge lt. high i (ground (arith, ge)) lt)
    | inl e ↦
        let less : lo < hi = ground arith in
        let mid = (lo + hi) / 2 in
        elim (Bool-cases (comes_before (get_or leaves mid []) target)) [
          | inl f ↦
              rw (bisect_on, e, f)
                (bisect_on-IsBound fuel (mid + 1) hi (omega arith) top (omega arith)
                  (λ i lt. below i mid (omega arith) (omega arith) f) high)
          | inr f ↦
              rw (bisect_on, e, f)
                (bisect_on-IsBound fuel lo mid (omega arith) (omega arith) (omega arith) low
                  (λ i ge lt. above i mid ge lt f))
        ]
  ]

  pub bisect-IsBound : IsBound target leaves (bisect target leaves)
  unfolding bisect
  bisect-IsBound =
      bisect_on-IsBound (length leaves) 0 (length leaves) (omega arith) (omega arith) (omega arith)
        (λ i lt. absurd (omega arith)) (λ i ge lt. absurd (omega arith))
