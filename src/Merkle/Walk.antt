-- ===== src/Merkle/Walk.antt =====
-- The pairs that `reconstruct_root` of verify/merkle.py walks through.
use unlearn_shield.Prelude.{
  ℕ, zero, suc, ◌+◌, ◌/◌, ◌%◌, ◌^◌, ◌≤◌, ◌<◌, ◌≡◌, refl, ◌∙◌, inl, inr, ◌⊎◌, true, false,
  Bool-cases, ◌==◌, ==_iff, arith,
}
use unlearn_shield.Merkle.Tree.{strip, turns_right, next}
use unlearn_shield.Merkle.Split.{pow_suc, pow_pos, le_or_lt}

strip_odd : (fuel fn sn : ℕ) → fn % 2 ≡ 1 → strip fuel fn sn ≡ (fn, sn)
unfolding strip
strip_odd zero fn sn odd = refl
strip_odd (suc fuel) fn sn odd = ground arith

strip_even :
    (fuel fn sn : ℕ) → 0 < fn → fn % 2 ≡ 0 → strip (suc fuel) fn sn ≡ strip fuel (fn / 2) (sn / 2)
unfolding strip
strip_even fuel fn sn lt even = ground arith

parity : (n : ℕ) → (n % 2 ≡ 0) ⊎ (n % 2 ≡ 1)
parity n = elim (le_or_lt 1 (n % 2)) [ inl le ↦ inr (omega arith) | inr lt ↦ inl (omega arith) ]

-- A round that strips nothing halves both.
pub next_apart :
    (fn sn : ℕ)
    → (fn < sn) ⊎ (fn % 2 ≡ 1)
    → (turns_right fn sn ≡ (fn % 2 == 1)) × (next fn sn ≡ (fn / 2, sn / 2))
unfolding next turns_right
next_apart fn sn h = elim (Bool-cases (fn % 2 == 1)) [
  | inl odd ↦
      let odd' : fn % 2 ≡ 1 = (==_iff _ _).0 odd in
      (rw odd refl, rw (odd, strip_odd fn fn sn odd') refl)
  | inr even ↦
      let apart : (fn == sn) ≡ false = elim h [ inl lt ↦ ground arith | inr odd ↦ ground arith ] in
      (rw (even, apart) refl, rw (even, apart) refl)
]

-- Where the first half of a split ends at the pair (0, 1).
pub next_top : next 0 1 ≡ (0, 0)
unfolding next turns_right strip
next_top = refl

-- The pairs of a walk in the second half, and in the whole.
abbrev pub IsOffset : ℕ × ℕ → ℕ × ℕ → Type 0
IsOffset big p = (m : ℕ) × (big ≡ (2 ^ m + p.0, 2 ^ m + p.1)) × (p.0 ≤ p.1) × (p.1 < 2 ^ m)

-- Stripping takes as many bits off both; what is left is odd.
IsStripped : ℕ × ℕ → ℕ × ℕ → Type 0
IsStripped big p = IsOffset big p × (p.0 % 2 ≡ 1)

strip-IsOffset :
    (fuel more m f s : ℕ)
    → 0 < f
    → f ≤ fuel
    → f ≤ s
    → s < 2 ^ m
    → 2 ^ m + f ≤ more
    → IsStripped (strip more (2 ^ m + f) (2 ^ m + s)) (strip fuel f s)
unfolding strip IsStripped
strip-IsOffset zero more m f s lt le low high enough = absurd (omega arith)
strip-IsOffset (suc fuel) zero m f s lt le low high enough = absurd (omega arith)
strip-IsOffset (suc fuel) (suc more) zero f s lt le low high enough = absurd (omega arith)
strip-IsOffset (suc fuel) (suc more) (suc m) f s lt le low high enough =
    let twice = pow_suc m in
    elim (parity f) [
      | inl even ↦
          let half : (2 ^ suc m + f) / 2 ≡ 2 ^ m + f / 2 = omega (arith, twice) in
          let half' : (2 ^ suc m + s) / 2 ≡ 2 ^ m + s / 2 = omega (arith, twice) in
          let big =
            strip_even more (2 ^ suc m + f) (2 ^ suc m + s) (omega arith)
              (omega (arith, twice, even)) in
          let small = strip_even fuel f s lt even in
          rw (big, small, half, half')
            (strip-IsOffset fuel more m (f / 2) (s / 2) (omega (arith, even)) (omega arith)
              (omega arith) (omega (arith, twice)) (omega (arith, twice)))
      | inr odd ↦
          let big = strip_odd (suc more) (2 ^ suc m + f) (2 ^ suc m + s) (omega (arith, twice)) in
          let small = strip_odd (suc fuel) f s odd in
          rw (big, small) ((suc m, refl, low, high), odd)
    ]

-- A round that may strip.
next_equal :
    (n : ℕ) → (turns_right n n ≡ true) × (next n n ≡ ((strip n n n).0 / 2, (strip n n n).1 / 2))
unfolding next turns_right
next_equal n =
    let same : (n == n) ≡ true = (==_iff n n).1 refl in
    elim (Bool-cases (n % 2 == 1)) [
      | inl t ↦ (rw t refl, rw t refl)
      | inr t ↦ (rw (t, same) refl, rw (t, same) refl)
    ]

IsStripped-half :
    (big p : ℕ × ℕ) → IsStripped big p → IsOffset (big.0 / 2, big.1 / 2) (p.0 / 2, p.1 / 2)
unfolding IsStripped
IsStripped-half big p ((zero, e, low, high), odd) = absurd (omega (arith, low, high, odd))
IsStripped-half big p ((suc k, e, low, high), odd) =
    let twice = pow_suc k in
    let half : (2 ^ suc k + p.0) / 2 ≡ 2 ^ k + p.0 / 2 = omega (arith, twice) in
    let half' : (2 ^ suc k + p.1) / 2 ≡ 2 ^ k + p.1 / 2 = omega (arith, twice) in
    (k, rw (e, half, half') refl, omega (arith, low), omega (arith, high, twice))

pub next-IsOffset :
    (m f s : ℕ)
    → 0 < s
    → f ≤ s
    → s < 2 ^ m
    → (turns_right (2 ^ m + f) (2 ^ m + s) ≡ turns_right f s)
      × IsOffset (next (2 ^ m + f) (2 ^ m + s)) (next f s)
next-IsOffset zero f s lt low high = absurd (omega arith)
next-IsOffset (suc m) f s lt low high =
    let twice = pow_suc m in
    elim (le_or_lt s f) [
      | inl le ↦
          let same : s ≡ f = omega arith in
          let stripped =
            strip-IsOffset f (2 ^ suc m + f) (suc m) f f (omega arith) (omega arith) (omega arith)
              (omega arith) (omega arith) in
          let (t, e) = next_equal f in
          let (t', e') = next_equal (2 ^ suc m + f) in
          rw (same, t', t, e', e) (refl, IsStripped-half _ _ stripped)
      | inr apart ↦
          let (t, e) = next_apart f s (inl apart) in
          let (t', e') = next_apart (2 ^ suc m + f) (2 ^ suc m + s) (inl (omega arith)) in
          let half : (2 ^ suc m + f) / 2 ≡ 2 ^ m + f / 2 = omega (arith, twice) in
          let half' : (2 ^ suc m + s) / 2 ≡ 2 ^ m + s / 2 = omega (arith, twice) in
          let bit : (2 ^ suc m + f) % 2 ≡ f % 2 = omega (arith, twice) in
          rw (t', t, e', e, half, half', bit) (refl, (m, refl, omega arith, omega (arith, twice)))
    ]

strip_pow : (fuel m : ℕ) → 2 ^ m ≤ fuel → strip fuel (2 ^ m) (2 ^ m) ≡ (1, 1)
strip_pow fuel zero le = strip_odd fuel 1 1 refl
strip_pow zero (suc m) le = absurd (omega (arith, pow_pos (suc m)))
strip_pow (suc fuel) (suc m) le =
    let twice = pow_suc m in
    let some_m = pow_pos m in
    let half : 2 ^ suc m / 2 ≡ 2 ^ m = omega (arith, twice) in
    strip_even fuel (2 ^ suc m) (2 ^ suc m) (omega arith) (omega (arith, twice))
    ∙ rw half (strip_pow fuel m (omega (arith, twice)))

-- Where the second half ends at the pair (0, 0).
pub next_pow : (m : ℕ) → (turns_right (2 ^ m) (2 ^ m) ≡ true) × (next (2 ^ m) (2 ^ m) ≡ (0, 0))
next_pow m = let (t, e) = next_equal (2 ^ m) in (t, rw (e, strip_pow (2 ^ m) m (omega arith)) refl)
