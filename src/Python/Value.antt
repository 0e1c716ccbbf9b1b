-- ===== src/Python/Value.antt =====
-- The values that a parsed JSON document, or a dict that never left the process, is made of.
use unlearn_shield.Prelude.{
  ℕ, ◌+◌, ◌*◌, ◌-◌, Bool, not, ◌&&◌, true, false, Option, none, some, [], ◌∷◌, leb, ◌==◌,
  if◌then◌else◌, zero, suc,
}
use mathlib.Core.List.{reverse}
use unlearn_shield.Python.Bytes.{Bytes, Text, bytes_eq}
use unlearn_shield.Python.Hex.{is_space, from_hex}

-- `negsuc n` is -(n + 1).
pub data ℤ : Type 0 where
  pos : ℕ → ℤ
  negsuc : ℕ → ℤ

-- A key of a dict: JSON has texts only, `prove_absence` of verify/smt.py uses ints.
pub data Key : Type 0 where
  str_key : Text → Key
  int_key : ℤ → Key

mutual
  pub data Value : Type 0 where
    null : Value
    bool_val : Bool → Value
    int_val : ℤ → Value
    str_val : Text → Value
    list_val : Items → Value
    dict_val : Fields → Value

  pub data Items : Type 0 where
    nil : Items
    cons : Value → Items → Items

  pub data Fields : Type 0 where
    end : Fields
    field : Key → Value → Fields → Fields

abbrev pub key_is : Key → Text → Bool
key_is (str_key k) t = bytes_eq k t
key_is (int_key n) t = false

-- `d.get(t)`
unfoldable pub get : Fields → Text → Option Value
get end t = none
get (field k v rest) t = if key_is k t then some v else get rest t

-- `bytes.fromhex(v)`; `none` is the ValueError, or the TypeError on what is no text.
unfoldable pub value_bytes : Value → Option Bytes
value_bytes (str_val t) = from_hex t
value_bytes _ = none

-- The digits of an int, with single underscores between them.
parse_digits : ℕ → Bool → Text → Option ℕ
parse_digits acc open_end [] = if open_end then none else some acc
parse_digits acc open_end (c ∷ r) =
    if leb 48 c && leb c 57
    then parse_digits (acc * 10 + (c - 48)) false r
    else if (c == b'_') && not open_end
    then parse_digits acc true r
    else none

strip_left : Text → Text
unfolding is_space
strip_left [] = []
strip_left (c ∷ r) = if is_space c then strip_left r else c ∷ r

negate : ℕ → ℤ
negate n = elim n [ zero ↦ pos 0 | suc m ↦ negsuc m ]

signed : Text → Option ℤ
unfolding parse_digits negate
signed [] = none
signed (c ∷ r) =
    if c == b'-'
    then elim (parse_digits 0 true r) [ none ↦ none | some n ↦ some (negate n) ]
    else if c == b'+'
    then elim (parse_digits 0 true r) [ none ↦ none | some n ↦ some (pos n) ]
    else elim (parse_digits 0 true (c ∷ r)) [ none ↦ none | some n ↦ some (pos n) ]

-- `int(t)` for a text of ASCII characters.
unfoldable pub parse_int : Text → Option ℤ
unfolding signed strip_left
parse_int t = signed (reverse (strip_left (reverse (strip_left t))))

-- `int(k)`; `none` is the ValueError.
unfoldable pub key_int : Key → Option ℤ
unfolding parse_int
key_int (int_key n) = some n
key_int (str_key t) = parse_int t
