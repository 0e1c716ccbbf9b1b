-- ===== src/Merkle/Proof.antt =====
-- verify/merkle.py: `prove_absence`, and `verify_absence` on any values of a parsed document, with
-- the exceptions that it does not catch.
use unlearn_shield.Prelude.{
  ℕ, zero, suc, ◌+◌, ◌-◌, ◌/◌, Bool, true, false, ◌&&◌, List, [], ◌∷◌, Option, none, some, length,
  get_or, ltb, ◌==◌, if◌then◌else◌,
}
use Prim.Native.Nat.{Ordering}
use unlearn_shield.Prelude.Result.{Result, ok, err, value_error, type_error, attribute_error, ◌>>=◌}
use unlearn_shield.Python.Bytes.{Bytes, Text, codes, bytes_eq, bytes_compare}
use unlearn_shield.Python.Hex.{from_hex, to_hex}
use unlearn_shield.Python.Value.{
  ℤ, pos, negsuc, str_key, int_key, Value, null, bool_val, int_val, str_val, list_val, dict_val,
  Items, nil, cons, Fields, end, field, get, value_bytes,
}
use unlearn_shield.Smt.Hash.{keys_of, ref_bytes}
use unlearn_shield.Merkle.Tree.{commit, audit_path, reconstruct_root}

-- `a < b` on byte strings
unfoldable pub comes_before : Bytes → Bytes → Bool
comes_before a b = elim (bytes_compare a b) [
  | Ordering.lt ↦ true
  | Ordering.eq ↦ false
  | Ordering.gt ↦ false
]

-- An int, of which the two Booleans are.
unfoldable pub as_int : Value → Option ℤ
as_int (int_val n) = some n
as_int (bool_val true) = some (pos 1)
as_int (bool_val false) = some (pos 0)
as_int _ = none

unfoldable pub int_eq : ℤ → ℤ → Bool
int_eq (pos a) (pos b) = a == b
int_eq (negsuc a) (negsuc b) = a == b
int_eq _ _ = false

-- `n + 1`
unfoldable pub plus_one : ℤ → ℤ
plus_one (pos n) = pos (suc n)
plus_one (negsuc zero) = pos 0
plus_one (negsuc (suc n)) = negsuc n

-- `v == n`
unfoldable pub is_int : Option ℤ → ℤ → Bool
unfolding int_eq
is_int none n = false
is_int (some m) n = int_eq m n

-- `d.get(t)` with None where there is no entry
unfoldable pub get_or_null : Fields → Text → Value
get_or_null d t = elim (get d t) [ none ↦ null | some v ↦ v ]

unfoldable pub is_null : Value → Bool
is_null null = true
is_null _ = false

-- What the method `get` is called on.
unfoldable pub as_dict : Value → Result Fields
as_dict (dict_val d) = ok d
as_dict _ = err attribute_error

-- `bytes.fromhex(h)` of every item
unfoldable pub then_bytes : Option Bytes → Option (List Bytes) → Option (List Bytes)
then_bytes (some b) (some bs) = some (b ∷ bs)
then_bytes _ _ = none

unfoldable pub items_bytes : Items → Option (List Bytes)
unfolding then_bytes
items_bytes nil = some []
items_bytes (cons v rest) = then_bytes (value_bytes v) (items_bytes rest)

-- The items of a text are its characters.
unfoldable pub chars_bytes : Text → Option (List Bytes)
unfolding then_bytes
chars_bytes [] = some []
chars_bytes (c ∷ rest) = then_bytes (from_hex (c ∷ [])) (chars_bytes rest)

-- The items of a dict are its keys.
unfoldable pub keys_bytes : Fields → Option (List Bytes)
unfolding then_bytes
keys_bytes end = some []
keys_bytes (field (str_key k) v rest) = then_bytes (from_hex k) (keys_bytes rest)
keys_bytes (field (int_key n) v rest) = none

-- `[bytes.fromhex(h) for h in v]`; `none` is the ValueError or the TypeError.
unfoldable pub path_bytes : Value → Option (List Bytes)
unfolding items_bytes chars_bytes keys_bytes
path_bytes (list_val items) = items_bytes items
path_bytes (str_val t) = chars_bytes t
path_bytes (dict_val d) = keys_bytes d
path_bytes _ = none

-- What `check` reads of an entry; `none` is its `return None` before the path is walked.
pub record Entry : Type 0 where
  pub leaf : Bytes
  pub index : ℤ
  pub path : List Bytes

unfoldable pub entry_from : Option Bytes → Option (List Bytes) → Option ℤ → Option Entry
entry_from (some leaf) (some path) (some index) =
    some (record { leaf = leaf; index = index; path = path })
entry_from _ _ _ = none

unfoldable pub read_entry : Fields → Option Entry
unfolding entry_from get_or_null path_bytes as_int
read_entry d =
    entry_from (value_bytes (get_or_null d (codes "leaf")))
      (path_bytes (get_or_null d (codes "path"))) (as_int (get_or_null d (codes "index")))

module _ (sha256 : Bytes → Bytes) where
  -- `EMPTY_ROOT`
  unfoldable pub empty_root : Result Text
  unfolding commit
  empty_root = commit sha256 0 (sha256 [])

  -- `verify_audit_path`
  unfoldable pub verify_audit_path : Bytes → ℤ → ℕ → List Bytes → Text → Result Bool
  verify_audit_path leaf index tree_size path committed_root =
      elim (reconstruct_root sha256 leaf index tree_size path) [
        | none ↦ ok false
        | some node ↦ do root ← commit sha256 tree_size node; ok (bytes_eq root committed_root)
      ]

  -- `check`
  unfoldable pub check : Text → ℕ → Fields → Result (Option Bytes)
  unfolding read_entry verify_audit_path
  check root_hex size entry = elim (read_entry entry) [
    | none ↦ ok none
    | some e ↦ do
      verified ← verify_audit_path e.leaf e.index size e.path root_hex
      ok (if verified then some e.leaf else none)
  ]

  -- The target sorts before every leaf.
  unfoldable pub before_all : Bytes → Text → ℕ → Value → Result Bool
  unfolding check as_dict is_int comes_before
  before_all target root_hex size succ = if is_null succ then ok false else (do
    entry ← as_dict succ
    if is_int (as_int (get_or_null entry (codes "index"))) (pos 0)
        then (do
          leaf ← check root_hex size entry
          elim leaf [ none ↦ ok false | some b ↦ ok (comes_before target b) ])
        else ok false)

  -- The target sorts after every leaf.
  unfoldable pub after_all : Bytes → Text → ℕ → Value → Result Bool
  unfolding check as_dict is_int comes_before
  after_all target root_hex size pred = do
    entry ← as_dict pred
    if is_int (as_int (get_or_null entry (codes "index"))) (pos (size - 1))
        then (do
          leaf ← check root_hex size entry
          elim leaf [ none ↦ ok false | some b ↦ ok (comes_before b target) ])
        else ok false

  -- `pred.get("index", -99) + 1`
  unfoldable pub index_after : Fields → Result ℤ
  unfolding as_int plus_one
  index_after pred = elim (get pred (codes "index")) [
    | none ↦ ok (negsuc 97)
    | some v ↦ elim (as_int v) [ none ↦ err type_error | some n ↦ ok (plus_one n) ]
  ]

  unfoldable pub both_sides : Bytes → Option Bytes → Option Bytes → Bool
  unfolding comes_before
  both_sides target (some lo) (some hi) = comes_before lo target && comes_before target hi
  both_sides target _ _ = false

  -- The target sorts between two leaves.
  unfoldable pub between : Bytes → Text → ℕ → Value → Value → Result Bool
  unfolding check as_dict is_int index_after both_sides
  between target root_hex size pred succ = do
    after ← as_dict succ
    before ← as_dict pred
    expected ← index_after before
    if is_int (as_int (get_or_null after (codes "index"))) expected
        then (do
          lo ← check root_hex size before
          hi ← check root_hex size after
          ok (both_sides target lo hi))
        else ok false

  -- From the test on the size on.
  unfoldable pub verify_sized : Bytes → Text → ℕ → Value → Value → Result Bool
  unfolding empty_root before_all after_all between
  verify_sized target root_hex zero pred succ = do
    root ← empty_root
    ok (is_null pred && is_null succ && bytes_eq root_hex root)
  verify_sized target root_hex (suc n) pred succ =
      if is_null pred
      then before_all target root_hex (suc n) succ
      else (if is_null succ
          then after_all target root_hex (suc n) pred
          else between target root_hex (suc n) pred succ)

  unfoldable pub verify_dict : Bytes → Fields → Text → Result Bool
  unfolding verify_sized
  verify_dict target proof root_hex = elim (as_int (get_or_null proof (codes "tree_size"))) [
    | none ↦ ok false
    | some (negsuc n) ↦ ok false
    | some (pos size) ↦
        verify_sized target root_hex size (get_or_null proof (codes "predecessor"))
          (get_or_null proof (codes "successor"))
  ]

  unfoldable pub verify_texts : Bytes → Value → Value → Result Bool
  unfolding verify_dict
  verify_texts target (dict_val proof) (str_val root_hex) = verify_dict target proof root_hex
  verify_texts target _ _ = ok false

  -- `verify_absence`
  unfoldable pub verify_absence : Value → Value → Value → Result Bool
  unfolding verify_texts
  verify_absence target_ref proof root_hex = elim (value_bytes target_ref) [
    | none ↦ ok false
    | some target ↦ verify_texts target proof root_hex
  ]

-- The binary search of `prove_absence`; `fuel` is at least hi - lo, which each round lessens.
unfoldable pub bisect_on : ℕ → ℕ → ℕ → Bytes → List Bytes → ℕ
unfolding comes_before
bisect_on zero lo hi target leaves = lo
bisect_on (suc fuel) lo hi target leaves = elim (ltb lo hi) [
  | false ↦ lo
  | true ↦ elim (comes_before (get_or leaves ((lo + hi) / 2) []) target) [
    | true ↦ bisect_on fuel ((lo + hi) / 2 + 1) hi target leaves
    | false ↦ bisect_on fuel lo ((lo + hi) / 2) target leaves
  ]
]

unfoldable pub bisect : Bytes → List Bytes → ℕ
unfolding bisect_on
bisect target leaves = bisect_on (length leaves) 0 (length leaves) target leaves

unfoldable pub hex_items : List Bytes → Items
hex_items [] = nil
hex_items (h ∷ rest) = cons (str_val (to_hex h)) (hex_items rest)

-- `entry`
unfoldable pub entry_of_leaf : (Bytes → Bytes) → List Bytes → ℕ → Fields
unfolding hex_items
entry_of_leaf sha256 leaves i =
    field (str_key (codes "leaf")) (str_val (to_hex (get_or leaves i []))) (
      field (str_key (codes "index")) (int_val (pos i))
        (field (str_key (codes "path")) (list_val (hex_items (audit_path sha256 i leaves))) end))

-- `entry(lo - 1) if lo > 0 else None`
unfoldable pub predecessor_of : (Bytes → Bytes) → List Bytes → ℕ → Value
unfolding entry_of_leaf
predecessor_of sha256 leaves zero = null
predecessor_of sha256 leaves (suc lo) = dict_val (entry_of_leaf sha256 leaves lo)

-- `entry(lo) if lo < n else None`
unfoldable pub successor_of : (Bytes → Bytes) → List Bytes → ℕ → Value
unfolding entry_of_leaf
successor_of sha256 leaves lo =
    if ltb lo (length leaves) then dict_val (entry_of_leaf sha256 leaves lo) else null

-- The dict that `prove_absence` returns.
unfoldable pub proof_at : (Bytes → Bytes) → List Bytes → ℕ → Value
unfolding predecessor_of successor_of
proof_at sha256 leaves lo = dict_val (
    field (str_key (codes "tree_size")) (int_val (pos (length leaves))) (
      field (str_key (codes "predecessor")) (predecessor_of sha256 leaves lo)
        (field (str_key (codes "successor")) (successor_of sha256 leaves lo) end)))

-- `prove_absence`
unfoldable pub prove_absence : (Bytes → Bytes) → Text → List Text → Result Value
unfolding bisect proof_at
prove_absence sha256 target_ref subject_refs = do
  leaves ← keys_of subject_refs
  target ← ref_bytes target_ref
  if ltb (bisect target leaves) (length leaves)
        && bytes_eq (get_or leaves (bisect target leaves) []) target
      then err value_error
      else ok (proof_at sha256 leaves (bisect target leaves))
