-- ===== src/Python/Sorting.antt =====
-- `sorted(set(...))` is ascending, has the members it was given, and depends on nothing else.
use Prim.Native.Nat.{Ordering}
use unlearn_shield.Prelude.{
  ◌≡◌, ◌≢◌, refl, sym, ap, ap₂, inl, inr, List, [], ◌∷◌, arith, All, All-In, All-map, Pairs, In,
}
use unlearn_shield.Python.Bytes.{Bytes, bytes_compare, insert, sorted_set}

-- To split on a comparison and keep the equation.
data Compared (a b : Bytes) : Type 0 where
  less : bytes_compare a b ≡ Ordering.lt → Compared a b
  same : bytes_compare a b ≡ Ordering.eq → Compared a b
  more : bytes_compare a b ≡ Ordering.gt → Compared a b

compared : (a b : Bytes) → Compared a b
compared a b = go (bytes_compare a b) refl
  where
    go : (o : Ordering) → bytes_compare a b ≡ o → Compared a b
    go Ordering.lt e = less e
    go Ordering.eq e = same e
    go Ordering.gt e = more e

bytes_compare_refl : (a : Bytes) → bytes_compare a a ≡ Ordering.eq
unfolding bytes_compare
bytes_compare_refl [] = refl
bytes_compare_refl (x ∷ xs) = ground (arith, bytes_compare_refl xs)

pub bytes_compare-eq : (a b : Bytes) → bytes_compare a b ≡ Ordering.eq → a ≡ b
unfolding bytes_compare
bytes_compare-eq [] [] h = refl
bytes_compare-eq [] (y ∷ ys) h = cc
bytes_compare-eq (x ∷ xs) [] h = cc
bytes_compare-eq (x ∷ xs) (y ∷ ys) h = ground (arith, bytes_compare-eq xs ys)

abbrev pub Before : Bytes → Bytes → Type 0
Before a b = bytes_compare a b ≡ Ordering.lt

pub bytes_compare_flip : (a b : Bytes) → bytes_compare a b ≡ Ordering.gt → Before b a
unfolding bytes_compare
bytes_compare_flip [] [] h = cc
bytes_compare_flip [] (y ∷ ys) h = cc
bytes_compare_flip (x ∷ xs) [] h = refl
bytes_compare_flip (x ∷ xs) (y ∷ ys) h = ground (arith, bytes_compare_flip xs ys)

pub Before-trans : (a b c : Bytes) → Before a b → Before b c → Before a c
unfolding bytes_compare
Before-trans [] [] c p q = cc
Before-trans [] (y ∷ b) [] p q = cc
Before-trans [] (y ∷ b) (z ∷ c) p q = refl
Before-trans (x ∷ a) [] c p q = cc
Before-trans (x ∷ a) (y ∷ b) [] p q = cc
Before-trans (x ∷ a) (y ∷ b) (z ∷ c) p q = ground (arith, Before-trans a b c)

pub Before-ne : (a b : Bytes) → Before a b → a ≢ b
Before-ne a b h e = cc (bytes_compare_refl b, ap (λ x. bytes_compare x b) e)

abbrev pub IsAscending : List Bytes → Type 0
IsAscending = Pairs Before

module _ (x y : Bytes) (ys : List Bytes) where
  insert_less : bytes_compare x y ≡ Ordering.lt → insert x (y ∷ ys) ≡ x ∷ y ∷ ys
  unfolding insert
  insert_less e = rw (e, insert)

  insert_same : bytes_compare x y ≡ Ordering.eq → insert x (y ∷ ys) ≡ y ∷ ys
  unfolding insert
  insert_same e = rw (e, insert)

  insert_more : bytes_compare x y ≡ Ordering.gt → insert x (y ∷ ys) ≡ y ∷ insert x ys
  unfolding insert
  insert_more e = rw (e, insert)

All-insert :
    (P : Bytes → Type 0) (x : Bytes) (ks : List Bytes) → P x → All P ks → All P (insert x ks)
unfolding insert
All-insert P x [] p h = (p, tt)
All-insert P x (y ∷ ys) p h = elim (compared x y) [
  | less e ↦ rw (insert_less x y ys e) (p, h)
  | same e ↦ rw (insert_same x y ys e) h
  | more e ↦ rw (insert_more x y ys e) (h.0, All-insert P x ys p h.1)
]

insert-IsAscending : (x : Bytes) (ks : List Bytes) → IsAscending ks → IsAscending (insert x ks)
unfolding insert
insert-IsAscending x [] h = (tt, tt)
insert-IsAscending x (y ∷ ys) h = elim (compared x y) [
  | less e ↦ rw (insert_less x y ys e) ((e, All-map _ _ ys (λ z p. Before-trans x y z e p) h.0), h)
  | same e ↦ rw (insert_same x y ys e) h
  | more e ↦
      rw (insert_more x y ys e)
        (All-insert (Before y) x ys (bytes_compare_flip x y e) h.0, insert-IsAscending x ys h.1)
]

pub sorted_set-IsAscending : (xs : List Bytes) → IsAscending (sorted_set xs)
unfolding sorted_set
sorted_set-IsAscending [] = tt
sorted_set-IsAscending (x ∷ xs) = insert-IsAscending x (sorted_set xs) (sorted_set-IsAscending xs)

pub All-sorted_set : (P : Bytes → Type 0) (xs : List Bytes) → All P xs → All P (sorted_set xs)
unfolding sorted_set
All-sorted_set P [] h = tt
All-sorted_set P (x ∷ xs) h = All-insert P x (sorted_set xs) h.0 (All-sorted_set P xs h.1)

In-insert_self : (x : Bytes) (ks : List Bytes) → In x (insert x ks)
unfolding insert
In-insert_self x [] = inl refl
In-insert_self x (y ∷ ys) = elim (compared x y) [
  | less e ↦ rw (insert_less x y ys e) (inl refl)
  | same e ↦ rw (insert_same x y ys e) (inl (bytes_compare-eq x y e))
  | more e ↦ rw (insert_more x y ys e) (inr (In-insert_self x ys))
]

In-insert : (a x : Bytes) (ks : List Bytes) → In a ks → In a (insert x ks)
unfolding insert
In-insert a x [] m = absurd m
In-insert a x (y ∷ ys) m = elim (compared x y) [
  | less e ↦ rw (insert_less x y ys e) (inr m)
  | same e ↦ rw (insert_same x y ys e) m
  | more e ↦ rw (insert_more x y ys e) (elim m [ inl q ↦ inl q | inr q ↦ inr (In-insert a x ys q) ])
]

pub In-sorted_set : (a : Bytes) (xs : List Bytes) → In a xs → In a (sorted_set xs)
unfolding sorted_set
In-sorted_set a [] m = absurd m
In-sorted_set a (x ∷ xs) (inl e) = rw e (In-insert_self x (sorted_set xs))
In-sorted_set a (x ∷ xs) (inr m) = In-insert a x (sorted_set xs) (In-sorted_set a xs m)

-- The members of one list are members of the other.
abbrev pub Subset : List Bytes → List Bytes → Type 0
Subset xs ys = (a : Bytes) → In a xs → In a ys

All-In_self : (xs : List Bytes) → All (λ a. In a xs) xs
All-In_self [] = tt
All-In_self (x ∷ xs) = (inl refl, All-map _ _ xs (λ a m. inr m) (All-In_self xs))

pub sorted_set-In : (a : Bytes) (xs : List Bytes) → In a (sorted_set xs) → In a xs
sorted_set-In a xs m = All-In _ a (sorted_set xs) (All-sorted_set _ xs (All-In_self xs)) m

module _ (x y : Bytes) (xs ys : List Bytes) where
  heads_eq : All (Before x) xs → All (Before y) ys → In x (y ∷ ys) → In y (x ∷ xs) → x ≡ y
  heads_eq hx hy (inl e) n = e
  heads_eq hx hy (inr m) (inl e) = sym e
  heads_eq hx hy (inr m) (inr n) = absurd (
      Before-ne x x (Before-trans x y x (All-In (Before x) y xs hx n) (All-In (Before y) x ys hy m))
        refl)

  tails_Subset : All (Before x) xs → x ≡ y → Subset (x ∷ xs) (y ∷ ys) → Subset xs ys
  tails_Subset hx e s a m = elim (s a (inr m)) [
    | inl q ↦ absurd (Before-ne x a (All-In (Before x) a xs hx m) (cc))
    | inr q ↦ q
  ]

-- An ascending list is determined by its members.
pub IsAscending-eq :
    (xs ys : List Bytes) → IsAscending xs → IsAscending ys → Subset xs ys → Subset ys xs → xs ≡ ys
IsAscending-eq [] [] hx hy s t = refl
IsAscending-eq [] (y ∷ ys) hx hy s t = absurd (t y (inl refl))
IsAscending-eq (x ∷ xs) [] hx hy s t = absurd (s x (inl refl))
IsAscending-eq (x ∷ xs) (y ∷ ys) hx hy s t =
    let e = heads_eq x y xs ys hx.0 hy.0 (s x (inl refl)) (t y (inl refl)) in
    ap₂ ◌∷◌ e (
      IsAscending-eq xs ys hx.1 hy.1 (tails_Subset x y xs ys hx.0 e s)
        (tails_Subset y x ys xs hy.0 (sym e) t))
