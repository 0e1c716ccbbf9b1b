-- ===== src/Prelude/Lists.antt =====
-- Lists measured by native numbers, filtered by Boolean tests, and predicates on their members.
use Prim.Native.Nat.{ℕ, zero, suc, ◌+◌, ◌-◌, ◌≤◌, ◌<◌}
use mathlib.Core.Path.{◌≡◌, refl, subst}
use mathlib.Core.Logic.{◌⊎◌, inl, inr}
use mathlib.Core.Bool.{Bool, true, false, ◌&&◌}
use mathlib.Core.List.{List, [], ◌∷◌, ◌++◌}
use native.Mathlib.Omega.{arith}
use unlearn_shield.Prelude.Tests.{if◌then◌else◌, Bool-cases}

module _ {ℓ} {A : Type ℓ} where
  abbrev pub length : List A → ℕ
  length [] = 0
  length (x ∷ xs) = suc (length xs)

  abbrev pub get_or : List A → ℕ → A → A
  get_or [] i d = d
  get_or (x ∷ xs) zero d = x
  get_or (x ∷ xs) (suc i) d = get_or xs i d

  abbrev pub take : ℕ → List A → List A
  take zero xs = []
  take (suc n) [] = []
  take (suc n) (x ∷ xs) = x ∷ take n xs

  abbrev pub drop : ℕ → List A → List A
  drop zero xs = xs
  drop (suc n) [] = []
  drop (suc n) (x ∷ xs) = drop n xs

  -- `[x for x in xs if p(x)]`
  unfoldable pub keep : (A → Bool) → List A → List A
  keep p [] = []
  keep p (x ∷ xs) = let rest = keep p xs in if p x then x ∷ rest else rest

  -- `all(p(x) for x in xs)`
  unfoldable pub all : (A → Bool) → List A → Bool
  all p [] = true
  all p (x ∷ xs) = p x && all p xs

  pub length-append : (xs ys : List A) → length (xs ++ ys) ≡ length xs + length ys
  length-append [] ys = omega arith
  length-append (x ∷ xs) ys = omega (arith, length-append xs ys)

module _ {ℓ κ} {A : Type ℓ} where
  abbrev pub All : (A → Type κ) → List A → Type κ
  All P [] = Unit
  All P (x ∷ xs) = P x × All P xs

  -- Every earlier element stands in the relation to every later one.
  abbrev pub Pairs : (A → A → Type κ) → List A → Type κ
  Pairs R [] = Unit
  Pairs R (x ∷ xs) = All (R x) xs × Pairs R xs

-- Membership by recursion, which the tactics read.
abbrev pub In : {A : Type 0} → A → List A → Type 0
In a [] = ⊥
In a (x ∷ xs) = (a ≡ x) ⊎ In a xs

module _ {ℓ} {A : Type ℓ} where
  pub All-keep {κ} : (P : A → Type κ) (p : A → Bool) (xs : List A) → All P xs → All P (keep p xs)
  unfolding keep
  All-keep P p [] h = tt
  All-keep P p (x ∷ xs) h = elim (Bool-cases (p x)) [
    | inl e ↦ rw e (h.0, All-keep P p xs h.1)
    | inr e ↦ rw e (All-keep P p xs h.1)
  ]

  -- What passes the test.
  pub All-keep_test : (p : A → Bool) (xs : List A) → All (λ x. p x ≡ true) (keep p xs)
  unfolding keep
  All-keep_test p [] = tt
  All-keep_test p (x ∷ xs) = elim (Bool-cases (p x)) [
    | inl e ↦ rw e (e, All-keep_test p xs)
    | inr e ↦ rw e (All-keep_test p xs)
  ]

  pub All-map {κ μ} :
      (P : A → Type κ) (Q : A → Type μ) (xs : List A) → ((x : A) → P x → Q x) → All P xs → All Q xs
  All-map P Q [] f h = tt
  All-map P Q (x ∷ xs) f h = (f x h.0, All-map P Q xs f h.1)

  pub All-zip {κ μ} :
      (P : A → Type κ) (Q : A → Type μ) (xs : List A)
      → All P xs
      → All Q xs
      → All (λ x. P x × Q x) xs
  All-zip P Q [] h k = tt
  All-zip P Q (x ∷ xs) h k = ((h.0, k.0), All-zip P Q xs h.1 k.1)

  pub keep-keep : (p q : A → Bool) (xs : List A) → keep p (keep q xs) ≡ keep q (keep p xs)
  unfolding keep
  keep-keep p q [] = refl
  keep-keep p q (x ∷ xs) = ground (arith, keep-keep p q xs)

  pub keep_congr : (p q : A → Bool) (xs : List A) → All (λ x. p x ≡ q x) xs → keep p xs ≡ keep q xs
  unfolding keep
  keep_congr p q [] h = refl
  keep_congr p q (x ∷ xs) h = ground (arith, keep_congr p q xs h.1)

  pub keep_none : (p : A → Bool) (xs : List A) → All (λ x. p x ≡ false) xs → keep p xs ≡ []
  unfolding keep
  keep_none p [] h = refl
  keep_none p (x ∷ xs) h = ground (arith, keep_none p xs h.1)

  pub keep-eq_self : (p : A → Bool) (xs : List A) → All (λ x. p x ≡ true) xs → keep p xs ≡ xs
  unfolding keep
  keep-eq_self p [] h = refl
  keep-eq_self p (x ∷ xs) h = ground (arith, keep-eq_self p xs h.1)

module _ {ℓ} {A : Type ℓ} where
  pub Pairs-keep {κ} :
      (R : A → A → Type κ) (p : A → Bool) (xs : List A) → Pairs R xs → Pairs R (keep p xs)
  unfolding keep
  Pairs-keep R p [] h = tt
  Pairs-keep R p (x ∷ xs) h = elim (Bool-cases (p x)) [
    | inl e ↦ rw e (All-keep (R x) p xs h.0, Pairs-keep R p xs h.1)
    | inr e ↦ rw e (Pairs-keep R p xs h.1)
  ]

  -- Two filters in a row are one.
  pub keep_both :
      (p q r : A → Bool) (xs : List A)
      → ((x : A) → r x ≡ (p x && q x))
      → keep p (keep q xs) ≡ keep r xs
  unfolding keep
  keep_both p q r [] h = refl
  keep_both p q r (x ∷ xs) h = ground (arith, keep_both p q r xs h, h x)

pub In-keep :
    {A : Type 0} (p : A → Bool) (a : A) (xs : List A) → In a xs → p a ≡ true → In a (keep p xs)
unfolding keep
In-keep p a [] h e = absurd h
In-keep p a (x ∷ xs) (inl q) e = rw (subst (λ y. p y ≡ true) q e) (inl q)
In-keep p a (x ∷ xs) (inr q) e = elim (Bool-cases (p x)) [
  | inl t ↦ rw t (inr (In-keep p a xs q e))
  | inr t ↦ rw t (In-keep p a xs q e)
]

pub All-In : {A : Type 0} (P : A → Type 0) (a : A) (xs : List A) → All P xs → In a xs → P a
All-In P a [] h m = absurd m
All-In P a (x ∷ xs) h (inl e) = rw e h.0
All-In P a (x ∷ xs) h (inr m) = All-In P a xs h.1 m

pub keep-In : {A : Type 0} (p : A → Bool) (a : A) (xs : List A) → In a (keep p xs) → In a xs
unfolding keep
keep-In p a [] m = m
keep-In p a (x ∷ xs) m = elim (Bool-cases (p x)) [
  | inl e ↦ elim (rw e at m) [ inl q ↦ inl q | inr q ↦ inr (keep-In p a xs q) ]
  | inr e ↦ inr (keep-In p a xs (rw e at m))
]

module _ {ℓ} {A : Type ℓ} where
  pub length-take_le : (n : ℕ) (xs : List A) → length (take n xs) ≤ n
  length-take_le zero xs = omega arith
  length-take_le (suc n) [] = omega arith
  length-take_le (suc n) (x ∷ xs) = omega (arith, length-take_le n xs)

  pub All-take {κ} : (P : A → Type κ) (n : ℕ) (xs : List A) → All P xs → All P (take n xs)
  All-take P zero xs h = tt
  All-take P (suc n) [] h = tt
  All-take P (suc n) (x ∷ xs) h = (h.0, All-take P n xs h.1)

  pub All-drop {κ} : (P : A → Type κ) (n : ℕ) (xs : List A) → All P xs → All P (drop n xs)
  All-drop P zero xs h = h
  All-drop P (suc n) [] h = tt
  All-drop P (suc n) (x ∷ xs) h = All-drop P n xs h.1

  -- What is cut off at the front stands in the relation to all that is left.
  pub Pairs-take-drop {κ} :
      (R : A → A → Type κ) (n : ℕ) (xs : List A)
      → Pairs R xs
      → All (λ x. All (R x) (drop n xs)) (take n xs)
  Pairs-take-drop R zero xs h = tt
  Pairs-take-drop R (suc n) [] h = tt
  Pairs-take-drop R (suc n) (x ∷ xs) h = (All-drop (R x) n xs h.0, Pairs-take-drop R n xs h.1)

  pub take-append-drop : (n : ℕ) (xs : List A) → take n xs ++ drop n xs ≡ xs
  take-append-drop zero xs = refl
  take-append-drop (suc n) [] = refl
  take-append-drop (suc n) (x ∷ xs) = rw (take-append-drop n xs)

  pub All-append {κ} : (P : A → Type κ) (xs ys : List A) → All P xs → All P ys → All P (xs ++ ys)
  All-append P [] ys h k = k
  All-append P (x ∷ xs) ys h k = (h.0, All-append P xs ys h.1 k)

  pub length-take : (n : ℕ) (xs : List A) → n ≤ length xs → length (take n xs) ≡ n
  length-take zero xs le = refl
  length-take (suc n) [] le = absurd (omega arith)
  length-take (suc n) (x ∷ xs) le = omega (arith, length-take n xs (omega arith))

  pub length-drop : (n : ℕ) (xs : List A) → length (drop n xs) ≡ length xs - n
  length-drop zero xs = omega arith
  length-drop (suc n) [] = omega arith
  length-drop (suc n) (x ∷ xs) = omega (arith, length-drop n xs)

  pub get_or-take : (n i : ℕ) (xs : List A) (d : A) → i < n → get_or (take n xs) i d ≡ get_or xs i d
  get_or-take zero i xs d lt = absurd (omega arith)
  get_or-take (suc n) i [] d lt = refl
  get_or-take (suc n) zero (x ∷ xs) d lt = refl
  get_or-take (suc n) (suc i) (x ∷ xs) d lt = get_or-take n i xs d (omega arith)

  pub get_or-drop :
      (n i : ℕ) (xs : List A) (d : A) → n ≤ i → get_or (drop n xs) (i - n) d ≡ get_or xs i d
  get_or-drop zero i xs d le = let e : i - 0 ≡ i = omega arith in rw e refl
  get_or-drop (suc n) i [] d le = refl
  get_or-drop (suc n) zero (x ∷ xs) d le = absurd (omega arith)
  get_or-drop (suc n) (suc i) (x ∷ xs) d le =
      let e : suc i - suc n ≡ i - n = omega arith in rw e (get_or-drop n i xs d (omega arith))
