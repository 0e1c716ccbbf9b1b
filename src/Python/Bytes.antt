-- ===== src/Python/Bytes.antt =====
-- `bytes`, equality and order of byte strings, and `sorted(set(...))`.
use Prim.Native.Nat.{compare, Ordering}
use Prim.Native.Char.{code}
use unlearn_shield.Prelude.{
  ℕ, ◌<◌, ◌≡◌, refl, inl, inr, Bool, true, false, ◌&&◌, List, [], ◌∷◌, arith, ◌==◌, if◌then◌else◌,
  In, String, ◌↔◌, Bool-cases,
}

-- A byte string, and a text as its code points.
abbrev pub Bytes : Type 0
Bytes = List ℕ

abbrev pub Text : Type 0
Text = List ℕ

abbrev pub codes : String → Text
codes String.[] = []
codes (String.◌∷◌ c s) = code c ∷ codes s

abbrev pub IsByte : ℕ → Type 0
IsByte b = b < 256

-- `a == b` on byte strings and on texts.
unfoldable pub bytes_eq : List ℕ → List ℕ → Bool
bytes_eq [] [] = true
bytes_eq (x ∷ xs) (y ∷ ys) = (x == y) && bytes_eq xs ys
bytes_eq _ _ = false

pub bytes_eq_refl : (a : List ℕ) → bytes_eq a a ≡ true
unfolding bytes_eq
bytes_eq_refl [] = refl
bytes_eq_refl (x ∷ xs) = ground (arith, bytes_eq_refl xs)

pub bytes_eq-eq : (a b : List ℕ) → bytes_eq a b ≡ true → a ≡ b
unfolding bytes_eq
bytes_eq-eq [] [] h = refl
bytes_eq-eq [] (y ∷ ys) h = cc
bytes_eq-eq (x ∷ xs) [] h = cc
bytes_eq-eq (x ∷ xs) (y ∷ ys) h = ground (arith, bytes_eq-eq xs ys)

pub bytes_eq_iff : (a b : List ℕ) → (bytes_eq a b ≡ true) ↔ (a ≡ b)
bytes_eq_iff a b = (bytes_eq-eq a b, λ e. rw e (bytes_eq_refl b))

-- `x in xs`
unfoldable pub mem : Bytes → List Bytes → Bool
mem x [] = false
mem x (y ∷ ys) = if bytes_eq x y then true else mem x ys

pub mem-In : (x : Bytes) (xs : List Bytes) → mem x xs ≡ true → In x xs
unfolding mem
mem-In x [] h = cc
mem-In x (y ∷ ys) h = elim (Bool-cases (bytes_eq x y)) [
  | inl e ↦ inl (bytes_eq-eq x y e)
  | inr e ↦ inr (mem-In x ys (ground arith))
]

pub In-mem : (x : Bytes) (xs : List Bytes) → In x xs → mem x xs ≡ true
unfolding mem
In-mem x [] h = absurd h
In-mem x (y ∷ ys) (inl e) = ground (arith, bytes_eq_iff x y)
In-mem x (y ∷ ys) (inr m) = ground (arith, In-mem x ys m)

-- Byte strings are ordered by their first difference, and a prefix comes first.
unfoldable pub bytes_compare : Bytes → Bytes → Ordering
bytes_compare [] [] = Ordering.eq
bytes_compare [] (y ∷ ys) = Ordering.lt
bytes_compare (x ∷ xs) [] = Ordering.gt
bytes_compare (x ∷ xs) (y ∷ ys) = elim (compare x y) [
  | Ordering.lt ↦ Ordering.lt
  | Ordering.eq ↦ bytes_compare xs ys
  | Ordering.gt ↦ Ordering.gt
]

-- An ascending list without duplicates, and one more member of it.
unfoldable pub insert : Bytes → List Bytes → List Bytes
insert x [] = x ∷ []
insert x (y ∷ ys) = elim (bytes_compare x y) [
  | Ordering.lt ↦ x ∷ y ∷ ys
  | Ordering.eq ↦ y ∷ ys
  | Ordering.gt ↦ y ∷ insert x ys
]

-- `sorted(set(xs))`
unfoldable pub sorted_set : List Bytes → List Bytes
unfolding insert
sorted_set [] = []
sorted_set (x ∷ xs) = insert x (sorted_set xs)
