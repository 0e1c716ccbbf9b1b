-- ===== src/Merkle/Split.antt =====
-- The split of verify/merkle.py is the largest power of two below the number of leaves.
use unlearn_shield.Prelude.{
  ℕ, zero, suc, ◌+◌, ◌-◌, ◌/◌, ◌^◌, ◌≤◌, ◌<◌, ◌≡◌, refl, inl, inr, ◌⊎◌, Bool-cases, ◌==◌, leb,
  leb→le, false, arith,
}
use native.Mathlib.Numerals.{unary_clauses}
use unlearn_shield.Merkle.Tree.{bit_length_on, split}

pub pow_suc : (m : ℕ) → 2 ^ suc m ≡ 2 ^ m + 2 ^ m
pow_suc m = simp unary_clauses (omega arith)

pub pow_pos : (m : ℕ) → 0 < 2 ^ m
pow_pos zero = omega arith
pow_pos (suc m) = omega (arith, pow_suc m, pow_pos m)

bit_length_on-zero : (fuel : ℕ) → bit_length_on fuel 0 ≡ 0
unfolding bit_length_on
bit_length_on-zero zero = refl
bit_length_on-zero (suc fuel) = refl

pub le_or_lt : (a b : ℕ) → (a ≤ b) ⊎ (b < a)
le_or_lt a b = elim (Bool-cases (leb a b)) [
  | inl e ↦ inl (leb→le a b e)
  | inr e ↦ inr (ground arith)
]

bit_length_on-pow :
    (fuel n : ℕ)
    → 0 < n
    → n ≤ fuel
    → (m : ℕ) × (bit_length_on fuel n ≡ suc m) × (2 ^ m ≤ n) × (n < 2 ^ m + 2 ^ m)
unfolding bit_length_on
bit_length_on-pow zero n lt le = absurd (omega arith)
bit_length_on-pow (suc fuel) n lt le =
    let nonzero : (n == 0) ≡ false = ground arith in
    elim (le_or_lt 2 n) [
      | inl two ↦
          let (m, e, low, high) = bit_length_on-pow fuel (n / 2) (omega arith) (omega arith) in
          (
            suc m,
            rw (nonzero, e) refl,
            omega (arith, pow_suc m, low),
            omega (arith, pow_suc m, high),
          )
      | inr one ↦
          let zero_half : n / 2 ≡ 0 = omega arith in
          (0, rw (nonzero, zero_half, bit_length_on-zero fuel) refl, omega arith, omega arith)
    ]

-- What the split of a list with two leaves or more is.
pub split-pow :
    (n : ℕ) → 1 < n → (m : ℕ) × (split n ≡ 2 ^ m) × (2 ^ m ≤ n - 1) × (n - 1 < 2 ^ m + 2 ^ m)
unfolding split
split-pow n lt =
    let (m, e, low, high) = bit_length_on-pow (n - 1) (n - 1) (omega arith) (omega arith) in
    let less : suc m - 1 ≡ m = omega arith in (m, rw (e, less) refl, low, high)

-- Both parts of a split have a leaf.
pub split-bounds : (n : ℕ) → 1 < n → (0 < split n) × (split n < n)
split-bounds n lt =
    let (m, e, low, high) = split-pow n lt in
    let some_m = pow_pos m in (omega (arith, e), omega (arith, e, low))
