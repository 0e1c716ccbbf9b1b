-- ===== src/Merkle/Leaves.antt =====
-- What a checked entry of a proof of verify/merkle.py says: it is of the leaf at its index.
use unlearn_shield.Prelude.{
  ℕ, zero, suc, ◌<◌, ◌≡◌, refl, sym, ap, subst, ◌∙◌, ◌⊎◌, inl, inr, true, false, List, [], ◌∷◌,
  Option, none, some, length, get_or, ==_iff, All, In, Bool-cases, Option-cases, some_injective,
  arith,
}
use Prim.Native.Nat.{Ordering}
use unlearn_shield.Prelude.Result.{ok, Result-cases, ok_injective}
use unlearn_shield.Python.Bytes.{Bytes, Text, codes, bytes_eq, bytes_eq-eq, bytes_compare}
use unlearn_shield.Python.Sorting.{Before-trans, Before-ne, IsAscending, Before}
use unlearn_shield.Python.Value.{ℤ, pos, negsuc, Value, null, Fields, get}
use unlearn_shield.Smt.Hash.{IsSized}
use unlearn_shield.Merkle.Tree.{commit, mth, reconstruct_root}
use unlearn_shield.Merkle.Split.{le_or_lt}
use unlearn_shield.Merkle.Commit.{commit-inj}
use unlearn_shield.Merkle.Soundness.{reconstruct_root_sound, SecondPreimage, Published}
use unlearn_shield.Merkle.Proof.{
  Entry, comes_before, entry_from, read_entry, as_int, int_eq, plus_one, is_int, get_or_null,
  index_after, both_sides, verify_audit_path, check,
}

pub comes_before-Before : (a b : Bytes) → comes_before a b ≡ true → Before a b
unfolding comes_before
comes_before-Before a b e = go (bytes_compare a b) refl e
  where
    go :
        (o : Ordering)
        → bytes_compare a b ≡ o
        → (elim o [ Ordering.lt ↦ true | Ordering.eq ↦ false | Ordering.gt ↦ false ]) ≡ true
        → bytes_compare a b ≡ Ordering.lt
    go Ordering.lt f e = f
    go Ordering.eq f e = cc
    go Ordering.gt f e = cc

pub In-get_or :
    (t : Bytes) (leaves : List Bytes)
    → In t leaves
    → (j : ℕ) × (j < length leaves) × (get_or leaves j [] ≡ t)
In-get_or t [] m = absurd m
In-get_or t (x ∷ leaves) (inl e) = (0, omega arith, sym e)
In-get_or t (x ∷ leaves) (inr m) =
    let (j, lt, e) = In-get_or t leaves m in (suc j, omega (arith, lt), e)

pub All-get_or :
    (P : Bytes → Type 0) (leaves : List Bytes) (j : ℕ)
    → All P leaves
    → j < length leaves
    → P (get_or leaves j [])
All-get_or P [] j h lt = absurd (omega arith)
All-get_or P (x ∷ leaves) zero h lt = h.0
All-get_or P (x ∷ leaves) (suc j) h lt = All-get_or P leaves j h.1 (omega arith)

pub get_or-Before :
    (leaves : List Bytes) (i j : ℕ)
    → IsAscending leaves
    → i < j
    → j < length leaves
    → Before (get_or leaves i []) (get_or leaves j [])
get_or-Before [] i j h lt le = absurd (omega arith)
get_or-Before (x ∷ leaves) zero zero h lt le = absurd (omega arith)
get_or-Before (x ∷ leaves) zero (suc j) h lt le = All-get_or (Before x) leaves j h.0 (omega arith)
get_or-Before (x ∷ leaves) (suc i) zero h lt le = absurd (omega arith)
get_or-Before (x ∷ leaves) (suc i) (suc j) h lt le =
    get_or-Before leaves i j h.1 (omega arith) (omega arith)

-- A leaf before another one stands at a smaller index.
pub Before-index :
    (leaves : List Bytes) (i j : ℕ)
    → IsAscending leaves
    → i < length leaves
    → Before (get_or leaves i []) (get_or leaves j [])
    → i < j
Before-index leaves i j h lt before = elim (le_or_lt j i) [
  | inr less ↦ less
  | inl le ↦ elim (le_or_lt i j) [
    | inl ge ↦
        let same : i ≡ j = omega arith in
        absurd (Before-ne _ _ before (ap (λ n. get_or leaves n []) same))
    | inr less ↦
        absurd (Before-ne _ _ (Before-trans _ _ _ before (get_or-Before leaves j i h less lt)) refl)
  ]
]

int_eq-eq : (a b : ℤ) → int_eq a b ≡ true → a ≡ b
unfolding int_eq
int_eq-eq (pos a) (pos b) e = ap pos ((==_iff a b).0 e)
int_eq-eq (pos a) (negsuc b) e = absurd (cc e)
int_eq-eq (negsuc a) (pos b) e = absurd (cc e)
int_eq-eq (negsuc a) (negsuc b) e = ap negsuc ((==_iff a b).0 e)

pub is_int-eq : (o : Option ℤ) (n : ℤ) → is_int o n ≡ true → o ≡ some n
unfolding is_int
is_int-eq none n e = absurd (cc e)
is_int-eq (some m) n e = ap some (int_eq-eq m n e)

pub pos_injective : {a b : ℕ} → pos a ≡ pos b → a ≡ b
pos_injective e = cc e

null-get_or_null : (d : Fields) (t : Text) → get d t ≡ none → get_or_null d t ≡ null
unfolding get_or_null
null-get_or_null d t f = rw (get_or_null, f) refl

get-get_or_null : (d : Fields) (t : Text) (v : Value) → get d t ≡ some v → get_or_null d t ≡ v
unfolding get_or_null
get-get_or_null d t v f = rw (get_or_null, f) refl

-- What `check` compares a successor's index with, where the predecessor's is an int.
pub index_after-plus_one :
    (sha256 : Bytes → Bytes) (d : Fields) (n : ℤ)
    → as_int (get_or_null d (codes "index")) ≡ some n
    → index_after sha256 d ≡ ok (plus_one n)
unfolding index_after as_int
index_after-plus_one sha256 d n e = elim (Option-cases (get d (codes "index"))) [
  | inl f ↦ absurd (cc (sym e ∙ ap as_int (null-get_or_null d _ f)))
  | inr (v, f) ↦ rw (index_after, f, sym (ap as_int (get-get_or_null d _ v f)) ∙ e) refl
]

pub both_sides-some :
    (sha256 : Bytes → Bytes) (target : Bytes) (lo hi : Option Bytes)
    → both_sides sha256 target lo hi ≡ true
    → (a : Bytes) × (b : Bytes) × (lo ≡ some a)
      × (hi ≡ some b)
      × (comes_before a target ≡ true)
      × (comes_before target b ≡ true)
unfolding both_sides
both_sides-some sha256 target none hi e = absurd (cc e)
both_sides-some sha256 target (some a) none e = absurd (cc e)
both_sides-some sha256 target (some a) (some b) e = elim (Bool-cases (comes_before a target)) [
  | inl f ↦ (a, b, refl, refl, f, rw f at e)
  | inr f ↦ absurd (cc (rw f at e))
]

entry_from-index :
    (a : Option Bytes) (b : Option (List Bytes)) (c : Option ℤ) (e : Entry)
    → entry_from a b c ≡ some e
    → c ≡ some e.index
unfolding entry_from
entry_from-index none b c e f = absurd (cc f)
entry_from-index (some a) none c e f = absurd (cc f)
entry_from-index (some a) (some b) none e f = absurd (cc f)
entry_from-index (some a) (some b) (some c) e f =
    ap (λ (x : Entry). some x.index) (some_injective f)

pub read_entry-index :
    (d : Fields) (e : Entry)
    → read_entry d ≡ some e
    → as_int (get_or_null d (codes "index")) ≡ some e.index
unfolding read_entry
read_entry-index d e f = entry_from-index _ _ _ e f

-- Where a member of the leaves stands, by the leaves that come before it and after it.
pub member-index :
    (leaves : List Bytes) (target : Bytes)
    → IsAscending leaves
    → In target leaves
    → (j : ℕ) × (j < length leaves)
      × ((i : ℕ) → i < length leaves → comes_before target (get_or leaves i []) ≡ true → j < i)
      × ((i : ℕ) → i < length leaves → comes_before (get_or leaves i []) target ≡ true → i < j)
member-index leaves target ascending m =
    let (j, lt, e) = In-get_or target leaves m in
    (
      j,
      lt,
      (λ i lt' before.
          Before-index leaves j i ascending lt
            (subst (λ t. Before t (get_or leaves i [])) (sym e) (comes_before-Before _ _ before))),
      (λ i lt' before.
          Before-index leaves i j ascending lt'
            (subst (Before (get_or leaves i [])) (sym e) (comes_before-Before _ _ before))),
    )

module _ (sha256 : Bytes → Bytes) (sized : IsSized sha256) (leaves : List Bytes) (root : Text)
    (published : commit sha256 (length leaves) (mth sha256 leaves) ≡ ok root) where
  -- The entry is of the leaf at its index.
  abbrev pub IsLeafAt : ℕ → Fields → Bytes → Type 0
  IsLeafAt size entry leaf =
      (i : ℕ) × (e : Entry) × (read_entry entry ≡ some e)
      × (e.index ≡ pos i)
      × (size ≡ length leaves)
      × (i < length leaves)
      × (get_or leaves i [] ≡ leaf)

  reconstruct_root-leaf :
      (leaf : Bytes) (index : ℤ) (path : List Bytes)
      → reconstruct_root sha256 leaf index (length leaves) path ≡ some (mth sha256 leaves)
      → ((i : ℕ) × (index ≡ pos i) × (i < length leaves) × (get_or leaves i [] ≡ leaf))
        ⊎ SecondPreimage sha256 (Published sha256 leaves)
  unfolding reconstruct_root
  reconstruct_root-leaf leaf (negsuc n) path e = absurd (cc e)
  reconstruct_root-leaf leaf (pos i) path e =
      elim (reconstruct_root_sound sha256 sized i leaf leaves path e) [
        | inl (lt, found) ↦ inl (i, refl, lt, found)
        | inr (x, y, along, differ, one) ↦ inr (x, y, inl along, differ, one)
      ]

  verify_audit_path-leaf :
      (leaf : Bytes) (index : ℤ) (size : ℕ) (path : List Bytes)
      → verify_audit_path sha256 leaf index size path root ≡ ok true
      → ((i : ℕ) × (index ≡ pos i)
          × (size ≡ length leaves)
          × (i < length leaves)
          × (get_or leaves i [] ≡ leaf))
        ⊎ SecondPreimage sha256 (Published sha256 leaves)
  unfolding verify_audit_path
  verify_audit_path-leaf leaf index size path e =
      elim (Option-cases (reconstruct_root sha256 leaf index size path)) [
        | inl f ↦ absurd (cc (rw (verify_audit_path, f) at e))
        | inr (node, f) ↦ elim (Result-cases (commit sha256 size node)) [
          | inl (x, g) ↦ absurd (cc (rw (verify_audit_path, f, g) at e))
          | inr (t, g) ↦
              let eq : bytes_eq t root ≡ true = ok_injective (rw (verify_audit_path, f, g) at e) in
              let same = bytes_eq-eq t root eq in
              elim (commit-inj sha256 size (length leaves) node (mth sha256 leaves) root
                (g ∙ ap ok same) published) [
                  | inr (x, y, by_size, differ, one) ↦ inr (x, y, inr by_size, differ, one)
                  | inl (p, q) ↦ elim (reconstruct_root-leaf leaf index path (rw (p, q) at f)) [
                    | inl (i, at_i, lt, found) ↦ inl (i, at_i, p, lt, found)
                    | inr collision ↦ inr collision
                  ]
                ]
        ]
      ]

  pub check-leaf :
      (size : ℕ) (entry : Fields) (leaf : Bytes)
      → check sha256 root size entry ≡ ok (some leaf)
      → IsLeafAt size entry leaf ⊎ SecondPreimage sha256 (Published sha256 leaves)
  unfolding check
  check-leaf size entry leaf e = elim (Option-cases (read_entry entry)) [
    | inl f ↦ absurd (cc (rw (check, f) at e))
    | inr (x, f) ↦ elim (Result-cases (verify_audit_path sha256 x.leaf x.index size x.path root)) [
      | inl (y, g) ↦ absurd (cc (rw (check, f, g) at e))
      | inr (verified, g) ↦ elim (Bool-cases verified) [
        | inr h ↦ absurd (cc (rw (check, f, g, h) at e))
        | inl h ↦
            let same : some x.leaf ≡ some leaf = ok_injective (rw (check, f, g, h) at e) in
            let leaf_eq : x.leaf ≡ leaf = cc same in
            elim (verify_audit_path-leaf x.leaf x.index size x.path (g ∙ ap ok h)) [
              | inr collision ↦ inr collision
              | inl (i, at_i, p, lt, found) ↦ inl (i, x, f, at_i, p, lt, found ∙ leaf_eq)
            ]
      ]
    ]
  ]
