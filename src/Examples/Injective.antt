-- ===== src/Examples/Injective.antt =====
-- An injective function whose values all have 32 entries, since entries are not bounded: no collision
-- follows from the size of the digests alone.
use unlearn_shield.Prelude.{ℕ, zero, suc, ◌+◌, ◌≡◌, refl, ap, [], ◌∷◌, arith}
use unlearn_shield.Python.Bytes.{Bytes, codes}
use unlearn_shield.Smt.Hash.{IsSized, Collision}

-- 2 ^ x * (2 * m + 1)
unfoldable pair : ℕ → ℕ → ℕ
pair zero m = suc (m + m)
pair (suc x) m = pair x m + pair x m

pair-inj : (a b m n : ℕ) → pair a m ≡ pair b n → (a ≡ b) × (m ≡ n)
unfolding pair
pair-inj zero zero m n e = (refl, omega (arith, e))
pair-inj zero (suc b) m n e = absurd (omega (arith, e))
pair-inj (suc a) zero m n e = absurd (omega (arith, e))
pair-inj (suc a) (suc b) m n e = let (p, q) = pair-inj a b m n (omega (arith, e)) in (ap suc p, q)

pair-positive : (a m : ℕ) → pair a m ≡ 0 → ⊥
unfolding pair
pair-positive zero m e = omega (arith, e)
pair-positive (suc a) m e = pair-positive a m (omega (arith, e))

unfoldable encode : Bytes → ℕ
unfolding pair
encode [] = 0
encode (x ∷ xs) = pair x (encode xs)

encode-inj : (a b : Bytes) → encode a ≡ encode b → a ≡ b
unfolding encode
encode-inj [] [] e = refl
encode-inj [] (y ∷ ys) e = absurd (pair-positive y (encode ys) (omega (arith, e)))
encode-inj (x ∷ xs) [] e = absurd (pair-positive x (encode xs) e)
encode-inj (x ∷ xs) (y ∷ ys) e =
    let (p, q) = pair-inj x y (encode xs) (encode ys) e in
    let rest = encode-inj xs ys q in cc (p, rest)

-- The code of a text and 31 more entries.
unfoldable wide : Bytes → Bytes
unfolding encode
wide b = encode b ∷ codes "0123456789012345678901234567890"

wide-IsSized : IsSized wide
unfolding wide
wide-IsSized b = refl

wide-inj : (a b : Bytes) → wide a ≡ wide b → a ≡ b
unfolding wide
wide-inj a b e = encode-inj a b (cc e)

wide-apart : ¬ Collision wide
wide-apart (a, b, differ, same) = differ (wide-inj a b same)
