-- ===== src/Python/Int64.antt =====
-- The arithmetic of numpy's int64, whose results wrap around.
use unlearn_shield.Prelude.{
  ℕ, zero, suc, ◌+◌, ◌-◌, ◌*◌, ◌/◌, ◌%◌, ◌^◌, ◌<◌, ◌≡◌, refl, ◌∙◌, ap, ap₂, lt→ltb, Bool, true,
  false, ltb, if◌then◌else◌, arith,
}
use unlearn_shield.Python.Value.{ℤ, pos, negsuc}

-- The number that 64 bits stand for.
unfoldable pub signed : ℕ → ℤ
signed n = let r = n % 2 ^ 64 in if ltb r (2 ^ 63) then pos r else negsuc (2 ^ 64 - 1 - r)

-- The bits of a number.
unfoldable pub bits : ℤ → ℕ
bits (pos n) = n % 2 ^ 64
bits (negsuc n) = 2 ^ 64 - 1 - n % 2 ^ 64

unfoldable pub add : ℤ → ℤ → ℤ
unfolding signed bits
add a b = signed (bits a + bits b)

unfoldable pub mul : ℤ → ℤ → ℤ
unfolding signed bits
mul a b = signed (bits a * bits b)

-- `a // b`, which rounds down, and by zero is zero.
unfoldable pub floor_div : ℤ → ℤ → ℤ
unfolding signed
floor_div (pos a) (pos zero) = pos 0
floor_div (pos a) (pos (suc b)) = pos (a / suc b)
floor_div (negsuc a) (pos zero) = pos 0
floor_div (negsuc a) (pos (suc b)) = negsuc (a / suc b)
floor_div (pos zero) (negsuc b) = pos 0
floor_div (pos (suc a)) (negsuc b) = negsuc (a / suc b)
floor_div (negsuc a) (negsuc b) = signed (suc a / suc b)

unfoldable pub less : ℤ → ℤ → Bool
less (pos a) (pos b) = ltb a b
less (pos a) (negsuc b) = false
less (negsuc a) (pos b) = true
less (negsuc a) (negsuc b) = ltb b a

-- `np.minimum`
unfoldable pub minimum : ℤ → ℤ → ℤ
unfolding less
minimum a b = if less a b then a else b

signed_pos : (n r : ℕ) → n % 2 ^ 64 ≡ r → r < 2 ^ 63 → signed n ≡ pos r
unfolding signed
signed_pos n r same h =
    let fits : ltb r (2 ^ 63) ≡ true = lt→ltb r (2 ^ 63) h in rw (signed, same, fits) refl

signed_negsuc :
    (n r : ℕ) → n % 2 ^ 64 ≡ r → ltb r (2 ^ 63) ≡ false → signed n ≡ negsuc (2 ^ 64 - 1 - r)
unfolding signed
signed_negsuc n r same over = rw (signed, same, over) refl

bits_small : (n : ℕ) → n < 2 ^ 63 → bits (pos n) ≡ n
unfolding bits
bits_small n h = omega (arith, h)

-- Below 2^63 there is no wrap.
pub add_small : (a b : ℕ) → a + b < 2 ^ 63 → add (pos a) (pos b) ≡ pos (a + b)
unfolding add
add_small a b h =
    ap₂ (λ x y. signed (x + y)) (bits_small a (omega (arith, h))) (bits_small b (omega (arith, h)))
    ∙ signed_pos (a + b) (a + b) (omega (arith, h)) h

pub mul_small :
    (a b : ℕ) → a < 2 ^ 63 → b < 2 ^ 63 → a * b < 2 ^ 63 → mul (pos a) (pos b) ≡ pos (a * b)
unfolding mul
mul_small a b p q h =
    ap₂ (λ x y. signed (x * y)) (bits_small a p) (bits_small b q)
    ∙ signed_pos (a * b) (a * b) (bits_small (a * b) h) h

-- `a - 1`
pub add_minus_one : (a : ℕ) → suc a < 2 ^ 63 → add (pos (suc a)) (negsuc 0) ≡ pos a
unfolding add bits
add_minus_one a h =
    ap (λ x. signed (x + (2 ^ 64 - 1))) (bits_small (suc a) h)
    ∙ signed_pos (suc a + (2 ^ 64 - 1)) a (omega (arith, h)) (omega (arith, h))

pub add_zero_minus_one : add (pos 0) (negsuc 0) ≡ negsuc 0
unfolding add bits signed
add_zero_minus_one = refl

-- `-1 * n`
pub mul_minus_one : (n : ℕ) → suc n < 2 ^ 63 → mul (negsuc 0) (pos (suc n)) ≡ negsuc n
unfolding mul bits
mul_minus_one n h =
    ap (λ x. signed ((2 ^ 64 - 1) * x)) (bits_small (suc n) h)
    ∙ signed_negsuc ((2 ^ 64 - 1) * suc n) (2 ^ 64 - suc n) (omega (arith, h)) (ground (arith, h))
    ∙ ap negsuc (omega (arith, h))
