-- ===== src/Python/Hex.antt =====
-- `bytes.fromhex` and `bytes.hex`.
use unlearn_shield.Prelude.{
  subst, Bool-cases, inl, inr, ℕ, ◌+◌, ◌-◌, ◌*◌, ◌/◌, ◌%◌, ◌<◌, ◌≡◌, refl, Bool, ◌&&◌, ◌||◌, false,
  Option, none, some, [], ◌∷◌, arith, ltb, leb, ◌==◌, if◌then◌else◌, All,
}
use unlearn_shield.Python.Bytes.{Bytes, Text, IsByte}

-- `0123456789abcdef`
unfoldable pub hex_digit : ℕ → ℕ
hex_digit n = if ltb n 10 then n + 48 else n + 87

-- The value of a digit of either case.
unfoldable pub digit_value : ℕ → Option ℕ
digit_value c =
    if leb 48 c && leb c 57
    then some (c - 48)
    else if leb 97 c && leb c 102
    then some (c - 87)
    else if leb 65 c && leb c 70
    then some (c - 55)
    else none

-- ASCII white space: tab, line feed, vertical tab, form feed, carriage return, space.
unfoldable pub is_space : ℕ → Bool
is_space c = (c == 32) || leb 9 c && leb c 13

-- `b.hex()`
unfoldable pub to_hex : Bytes → Text
to_hex [] = []
to_hex (b ∷ bs) = hex_digit (b / 16) ∷ hex_digit (b % 16) ∷ to_hex bs

-- A byte of two digits, in front of the bytes that follow.
unfoldable pub byte_then : Option ℕ → Option ℕ → Option Bytes → Option Bytes
byte_then (some hi) (some lo) (some bs) = some ((hi * 16 + lo) ∷ bs)
byte_then _ _ _ = none

-- `bytes.fromhex(t)`: white space may stand between two bytes; `none` is the ValueError.
unfoldable pub from_hex : Text → Option Bytes
from_hex [] = some []
from_hex (c ∷ []) = if is_space c then some [] else none
from_hex (c ∷ e ∷ rest) =
    let skipped = from_hex (e ∷ rest) in
    let tail = from_hex rest in
    if is_space c then skipped else byte_then (digit_value c) (digit_value e) tail

is_space-hex_digit : (n : ℕ) → n < 16 → is_space (hex_digit n) ≡ false
unfolding is_space hex_digit
is_space-hex_digit n h = ground arith

digit_value-hex_digit : (n : ℕ) → n < 16 → digit_value (hex_digit n) ≡ some n
unfolding digit_value hex_digit
digit_value-hex_digit n h = ground arith

-- Reading back what `.hex()` wrote.
pub from_hex-to_hex : (b : Bytes) → All IsByte b → from_hex (to_hex b) ≡ some b
unfolding from_hex to_hex byte_then
from_hex-to_hex [] h = refl
from_hex-to_hex (b ∷ bs) h = ground (
  arith,
  is_space-hex_digit (b / 16),
  digit_value-hex_digit (b / 16),
  digit_value-hex_digit (b % 16),
  from_hex-to_hex bs h.1,
)

abbrev AreOctets : Option Bytes → Type 0
AreOctets none = Unit
AreOctets (some bs) = All IsByte bs

digit_value-lt : (c n : ℕ) → digit_value c ≡ some n → n < 16
unfolding digit_value
digit_value-lt c n h = ground arith

byte_then-AreOctets :
    (c e : ℕ) (o : Option Bytes)
    → AreOctets o
    → AreOctets (byte_then (digit_value c) (digit_value e) o)
byte_then-AreOctets c e o h = go (digit_value c) (digit_value e) o refl refl h
  where
    go :
        (x y : Option ℕ) (o : Option Bytes)
        → digit_value c ≡ x
        → digit_value e ≡ y
        → AreOctets o
        → AreOctets (byte_then x y o)
    go (some hi) (some lo) (some bs) p q h =
        unfold byte_then in (omega (arith, digit_value-lt c hi p, digit_value-lt e lo q), h)
    go none y o p q h = unfold byte_then in tt
    go (some hi) none o p q h = unfold byte_then in tt
    go (some hi) (some lo) none p q h = unfold byte_then in tt

from_hex-AreOctets : (t : Text) → AreOctets (from_hex t)
unfolding from_hex
from_hex-AreOctets [] = tt
from_hex-AreOctets (c ∷ []) = elim (Bool-cases (is_space c)) [
  | inl s ↦ rw (s, from_hex) tt
  | inr s ↦ rw (s, from_hex) tt
]
from_hex-AreOctets (c ∷ e ∷ rest) = elim (Bool-cases (is_space c)) [
  | inl s ↦ rw (s, from_hex) (from_hex-AreOctets (e ∷ rest))
  | inr s ↦ rw (s, from_hex) (byte_then-AreOctets c e (from_hex rest) (from_hex-AreOctets rest))
]

-- What `bytes.fromhex` returns are octets.
pub from_hex-octets : (t : Text) (b : Bytes) → from_hex t ≡ some b → All IsByte b
from_hex-octets t b h = subst AreOctets h (from_hex-AreOctets t)

hex_digit-inj : (a b : ℕ) → hex_digit a ≡ hex_digit b → a ≡ b
unfolding hex_digit
hex_digit-inj a b e = ground (arith, e)

pub to_hex-inj : (a b : Bytes) → to_hex a ≡ to_hex b → a ≡ b
unfolding to_hex
to_hex-inj [] [] e = refl
to_hex-inj [] (y ∷ b) e = absurd (cc e)
to_hex-inj (x ∷ a) [] e = absurd (cc e)
to_hex-inj (x ∷ a) (y ∷ b) e =
    let high = hex_digit-inj (x / 16) (y / 16) (cc e) in
    let low = hex_digit-inj (x % 16) (y % 16) (cc e) in
    let same : x ≡ y = omega (arith, high, low) in
    let rest = to_hex-inj a b (cc e) in cc (same, rest)
