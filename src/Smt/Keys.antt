-- ===== src/Smt/Keys.antt =====
-- From subject references to paths: `_keys` of 32-byte references, and keys that differ in a bit.
use mathlib.Core.Option.{get_or as option_or}
use unlearn_shield.Prelude.{
  ℕ, zero, suc, ◌+◌, ◌-◌, ◌*◌, ◌/◌, ◌%◌, ◌^◌, ◌≤◌, ◌<◌, ◌≡◌, ◌≢◌, refl, sym, ap, ap₂, ◌∙◌, inl, inr,
  true, false, List, [], ◌∷◌, map, length, get_or, all, All, All-map, All-zip, In, Bool-cases,
  Option-cases, arith, leb, ◌==◌,
}
use unlearn_shield.Prelude.Result.{ok, map_result}
use unlearn_shield.Python.Bytes.{Bytes, Text, IsByte, mem, In-mem, sorted_set}
use unlearn_shield.Python.Sorting.{
  IsAscending, Before-ne, sorted_set-IsAscending, All-sorted_set, In-sorted_set,
}
use unlearn_shield.Python.Hex.{from_hex, from_hex-octets}
use unlearn_shield.Smt.Hash.{depth_bits, bit, ref_bytes, keys_of}
use unlearn_shield.Smt.Tree.{full_paths}
use unlearn_shield.Smt.Reference.{agree, Apart, AwayFrom}

-- The byte string that a reference spells, and a reference of 32 bytes.
abbrev pub key_of : Text → Bytes
key_of r = option_or (from_hex r) []

abbrev pub IsRef : Text → Type 0
IsRef r = length (key_of r) ≡ 32

abbrev pub IsKey : Bytes → Type 0
IsKey k = (length k ≡ 32) × All IsByte k

-- The bits of a byte determine it.
same_test : (x y : ℕ) → (x == 1) ≡ (y == 1) → x < 2 → y < 2 → x ≡ y
same_test x y h p q = ground arith

module _ (a b : Bytes) (j : ℕ) where
  bit_at :
      (r : ℕ)
      → r < 8
      → bit a (8 * j + r) ≡ bit b (8 * j + r)
      → (get_or a j 0 / 2 ^ (7 - r)) % 2 ≡ (get_or b j 0 / 2 ^ (7 - r)) % 2
  unfolding bit
  bit_at r h e =
      let byte : (8 * j + r) / 8 ≡ j = omega arith in
      let place : (8 * j + r) % 8 ≡ r = omega arith in
      same_test _ _ (rw (byte, place) at e) (omega arith) (omega arith)

byte_of_bits :
    (x y : ℕ)
    → x < 256
    → y < 256
    → ((r : ℕ) → r < 8 → (x / 2 ^ (7 - r)) % 2 ≡ (y / 2 ^ (7 - r)) % 2)
    → x ≡ y
byte_of_bits x y p q h =
    let h7 : x / 128 ≡ y / 128 = omega (arith, h 0 (omega arith)) in
    let h6 : x / 64 ≡ y / 64 = omega (arith, h7, h 1 (omega arith)) in
    let h5 : x / 32 ≡ y / 32 = omega (arith, h6, h 2 (omega arith)) in
    let h4 : x / 16 ≡ y / 16 = omega (arith, h5, h 3 (omega arith)) in
    let h3 : x / 8 ≡ y / 8 = omega (arith, h4, h 4 (omega arith)) in
    let h2 : x / 4 ≡ y / 4 = omega (arith, h3, h 5 (omega arith)) in
    let h1 : x / 2 ≡ y / 2 = omega (arith, h2, h 6 (omega arith)) in
    omega (arith, h1, h 7 (omega arith))

get_or-IsByte : (a : Bytes) (j : ℕ) → All IsByte a → get_or a j 0 < 256
get_or-IsByte [] j h = omega arith
get_or-IsByte (x ∷ a) zero h = h.0
get_or-IsByte (x ∷ a) (suc j) h = get_or-IsByte a j h.1

eq_of_get_or :
    (a b : Bytes)
    → length a ≡ length b
    → ((j : ℕ) → j < length a → get_or a j 0 ≡ get_or b j 0)
    → a ≡ b
eq_of_get_or [] [] l h = refl
eq_of_get_or [] (y ∷ b) l h = absurd (omega arith)
eq_of_get_or (x ∷ a) [] l h = absurd (omega arith)
eq_of_get_or (x ∷ a) (y ∷ b) l h =
    ap₂ ◌∷◌ (h 0 (omega arith)) (eq_of_get_or a b (omega arith) (λ j p. h (suc j) (omega arith)))

agree-bits :
    (n d : ℕ) (a b : Bytes) (i : ℕ) → agree n d a b ≡ true → d ≤ i → i < d + n → bit a i ≡ bit b i
unfolding agree
agree-bits zero d a b i h p q = absurd (omega arith)
agree-bits (suc n) d a b i h p q = elim (Bool-cases (i == d)) [
  | inl same ↦ ground arith
  | inr later ↦ agree-bits n (suc d) a b i (ground arith) (ground arith) (omega arith)
]

-- Keys with one path are one key.
agree-eq : (a b : Bytes) → IsKey a → IsKey b → agree depth_bits 0 a b ≡ true → a ≡ b
agree-eq a b ka kb h = eq_of_get_or a b (ka.0 ∙ sym kb.0) λ j p.
    byte_of_bits (get_or a j 0) (get_or b j 0) (get_or-IsByte a j ka.1) (get_or-IsByte b j kb.1)
      λ r q.
        bit_at a b j r q
          (agree-bits depth_bits 0 a b (8 * j + r) h (omega arith) (omega (arith, ka.0)))

agree_ne : (a b : Bytes) → IsKey a → IsKey b → a ≢ b → agree depth_bits 0 a b ≡ false
agree_ne a b ka kb h = elim (Bool-cases (agree depth_bits 0 a b)) [
  | inl e ↦ absurd (h (agree-eq a b ka kb e))
  | inr e ↦ e
]

-- Distinct keys have distinct leaves.
pub IsAscending-Apart : (ks : List Bytes) → All IsKey ks → IsAscending ks → Apart depth_bits 0 ks
IsAscending-Apart [] h s = tt
IsAscending-Apart (k ∷ ks) h s = (
  All-map _ _ ks (λ l p. agree_ne k l h.0 p.0 (Before-ne k l p.1)) (All-zip _ _ ks h.1 s.0),
  IsAscending-Apart ks h.1 s.1,
)

pub mem-AwayFrom :
    (t : Bytes) (ks : List Bytes)
    → IsKey t
    → All IsKey ks
    → mem t ks ≡ false
    → AwayFrom depth_bits 0 t ks
unfolding mem
mem-AwayFrom t [] kt h e = tt
mem-AwayFrom t (k ∷ ks) kt h e = (
  agree_ne t k kt h.0 (λ p. cc (In-mem t (k ∷ ks) (inl p), e)),
  mem-AwayFrom t ks kt h.1 (ground arith),
)

-- The set of keys of a set of references.
unfoldable pub key_set : List Text → List Bytes
key_set refs = sorted_set (map key_of refs)

pub IsRef-IsKey : (r : Text) → IsRef r → IsKey (key_of r)
IsRef-IsKey r h = elim (Option-cases (from_hex r)) [
  | inl e ↦ (h, rw e tt)
  | inr (b, e) ↦ (h, rw e (from_hex-octets r b e))
]

pub ref_bytes-IsRef : (r : Text) → IsRef r → ref_bytes r ≡ ok (key_of r)
unfolding ref_bytes
ref_bytes-IsRef r h = ground arith

pub map_result-IsRef :
    (refs : List Text) → All IsRef refs → map_result ref_bytes refs ≡ ok (map key_of refs)
unfolding map_result
map_result-IsRef [] h = refl
map_result-IsRef (r ∷ refs) h = rw (ref_bytes-IsRef r h.0, map_result-IsRef refs h.1)

pub keys_of-IsRef : (refs : List Text) → All IsRef refs → keys_of refs ≡ ok (key_set refs)
unfolding keys_of key_set
keys_of-IsRef refs h = rw (map_result-IsRef refs h)

All-key_of : (refs : List Text) → All IsRef refs → All IsKey (map key_of refs)
All-key_of [] h = tt
All-key_of (r ∷ refs) h = (IsRef-IsKey r h.0, All-key_of refs h.1)

pub key_set-IsKey : (refs : List Text) → All IsRef refs → All IsKey (key_set refs)
unfolding key_set
key_set-IsKey refs h = All-sorted_set IsKey (map key_of refs) (All-key_of refs h)

pub key_set-IsAscending : (refs : List Text) → IsAscending (key_set refs)
unfolding key_set
key_set-IsAscending refs = sorted_set-IsAscending (map key_of refs)

In-map : (r : Text) (refs : List Text) → In r refs → In (key_of r) (map key_of refs)
In-map r [] m = absurd m
In-map r (s ∷ refs) (inl e) = inl (ap key_of e)
In-map r (s ∷ refs) (inr m) = inr (In-map r refs m)

pub In-key_set : (r : Text) (refs : List Text) → In r refs → In (key_of r) (key_set refs)
unfolding key_set
In-key_set r refs m = In-sorted_set (key_of r) (map key_of refs) (In-map r refs m)

full_paths_all : (ks : List Bytes) → All IsKey ks → all (λ k. leb 32 (length k)) ks ≡ true
unfolding all
full_paths_all [] h = refl
full_paths_all (k ∷ ks) h = rw (h.0.0, full_paths_all ks h.1)

pub full_paths-IsKey : (ks : List Bytes) → All IsKey ks → full_paths ks ≡ ok ks
unfolding full_paths
full_paths-IsKey ks h = rw (full_paths_all ks h)
