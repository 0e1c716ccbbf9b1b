-- ===== src/Examples/Hashes.antt =====
-- Two functions with 32-octet digests, in place of SHA-256: one that mixes its input, and one that
-- sends everything to one digest.
use unlearn_shield.Prelude.{
  ℕ, zero, suc, ◌+◌, ◌*◌, ◌/◌, ◌%◌, ◌^◌, ◌≡◌, refl, ap, [], ◌∷◌, length, All, arith,
}
use unlearn_shield.Python.Bytes.{Bytes, Text, IsByte}
use unlearn_shield.Python.Hex.{to_hex}
use unlearn_shield.Smt.Hash.{IsDigest}

-- The `n` low digits of `x` to the base 256.
unfoldable pub spread : ℕ → ℕ → Bytes
spread zero x = []
spread (suc n) x = x % 256 ∷ spread n (x / 256)

length-spread : (n x : ℕ) → length (spread n x) ≡ n
unfolding spread
length-spread zero x = refl
length-spread (suc n) x = ap suc (length-spread n (x / 256))

spread-octets : (n x : ℕ) → All IsByte (spread n x)
unfolding spread
spread-octets zero x = tt
spread-octets (suc n) x = (omega arith, spread-octets n (x / 256))

unfoldable pub mix : ℕ → Bytes → ℕ
mix acc [] = acc
mix acc (b ∷ bs) = mix ((acc * 1099511628211 + b + 1) % 2 ^ 256) bs

unfoldable pub mixing : Bytes → Bytes
unfolding spread mix
mixing b = spread 32 (mix 14695981039346656037 b)

pub mixing-IsDigest : IsDigest mixing
unfolding mixing
mixing-IsDigest = record {
  size = λ b. length-spread 32 (mix 14695981039346656037 b);
  octets = λ b. spread-octets 32 (mix 14695981039346656037 b);
}

unfoldable pub constant : Bytes → Bytes
unfolding spread
constant b = spread 32 0

pub constant-IsDigest : IsDigest constant
unfolding constant
constant-IsDigest = record { size = λ b. length-spread 32 0; octets = λ b. spread-octets 32 0 }

-- A reference of 32 bytes with the value `x`.
unfoldable pub ref : ℕ → Text
unfolding spread to_hex
ref x = to_hex (spread 32 x)
