-- ===== src/Smt/Proof.antt =====
-- verify/smt.py: `SparseMerkleTree.prove_absence` and `verify_absence`. A proof is a Python dict;
-- the verifier is given any value at all in its place.
use unlearn_shield.Prelude.{
  ℕ, zero, suc, ◌*◌, ◌/◌, Bool, true, false, not, List, [], ◌∷◌, Option, none, some, ltb, ◌==◌,
  length, if◌then◌else◌,
}
use mathlib.Core.Option.{get_or}
use unlearn_shield.Prelude.Result.{Result, ok, err, value_error, index_error, ◌>>=◌}
use unlearn_shield.Python.Bytes.{Bytes, Text, codes, bytes_eq, mem}
use unlearn_shield.Python.Hex.{to_hex}
use unlearn_shield.Python.Value.{
  Key, str_key, int_key, Value, str_val, dict_val, Fields, end, field, pos, negsuc, get,
  value_bytes, key_int,
}
use unlearn_shield.Smt.Hash.{
  depth_bits, bit, ref_bytes, empty_leaf, node_hash, default_hash, singleton_root,
}
use unlearn_shield.Smt.Tree.{Node, empty, single, branch, hash, SparseMerkleTree}

-- The siblings of a path, by depth.
abbrev pub Siblings : Type 0
Siblings = List (ℕ × Bytes)

-- `siblings.get(depth)`
unfoldable pub sibling_at : ℕ → Siblings → Option Bytes
sibling_at depth [] = none
sibling_at depth ((d, h) ∷ rest) = if d == depth then some h else sibling_at depth rest

-- Reading bit `depth` of a target that is too short raises.
unfoldable pub has_bit : Bytes → ℕ → Bool
has_bit target depth = ltb (depth / 8) (length target)

abbrev pub same_bit : Bool → Bool → Bool
same_bit true b = b
same_bit false b = not b

module _ (sha256 : Bytes → Bytes) where
  -- The inner loop, at a collapsed singleton.
  unfoldable pub diverge : ℕ → ℕ → Bytes → Bytes → Result Siblings
  diverge zero depth target key = ok []
  diverge (suc levels) depth target key =
      let further = diverge levels (suc depth) target key in
      if not (has_bit target depth)
      then err index_error
      else if same_bit (bit target depth) (bit key depth)
      then further
      else ok ((depth, singleton_root sha256 levels (suc depth) key) ∷ [])

  -- A sibling is recorded only where it is not the empty subtree.
  unfoldable pub record_sibling : ℕ → ℕ → Bytes → Siblings → Siblings
  record_sibling levels depth other rest =
      if bytes_eq other (default_hash sha256 levels) then rest else (depth, other) ∷ rest

  -- The loop of `prove_absence`.
  unfoldable pub find_siblings : ℕ → ℕ → Bytes → Node → Result Siblings
  find_siblings levels depth target (empty h) = ok []
  find_siblings levels depth target (single h key) = diverge levels depth target key
  find_siblings zero depth target (branch h left right) = ok []
  find_siblings (suc levels) depth target (branch h left right) =
      let on_left = find_siblings levels (suc depth) target left in
      let on_right = find_siblings levels (suc depth) target right in
      if not (has_bit target depth)
      then err index_error
      else if bit target depth
      then (do rest ← on_right; ok (record_sibling levels depth (hash left) rest))
      else (do rest ← on_left; ok (record_sibling levels depth (hash right) rest))

  -- `siblings.get(depth, DEFAULTS[depth + 1])`
  unfoldable pub sibling_or : ℕ → ℕ → Siblings → Bytes
  sibling_or levels depth siblings = get_or (sibling_at depth siblings) (default_hash sha256 levels)

  -- What the loop recomputes from an empty leaf: the node at `depth`.
  unfoldable pub climb : ℕ → ℕ → Bytes → Siblings → Bytes
  climb zero depth target siblings = empty_leaf sha256
  climb (suc levels) depth target siblings =
      let node = climb levels (suc depth) target siblings in
      let sibling = sibling_or levels depth siblings in
      if bit target depth then node_hash sha256 sibling node else node_hash sha256 node sibling

-- `{depth: other[0].hex(), ...}`
unfoldable pub sibling_fields : Siblings → Fields
sibling_fields [] = end
sibling_fields ((d, h) ∷ rest) = field (int_key (pos d)) (str_val (to_hex h)) (sibling_fields rest)

-- `{"scheme": "smt-256", "siblings": siblings}`
unfoldable pub proof_of : Siblings → Value
unfolding sibling_fields
proof_of siblings = dict_val (
    field (str_key (codes "scheme")) (str_val (codes "smt-256"))
      (field (str_key (codes "siblings")) (dict_val (sibling_fields siblings)) end))

-- `SparseMerkleTree.prove_absence`
unfoldable pub prove_absence : (Bytes → Bytes) → SparseMerkleTree → Text → Result Value
prove_absence sha256 tree target_ref = do
  target ← ref_bytes target_ref
  if mem target tree.keys then err value_error else (do
    siblings ← find_siblings sha256 depth_bits 0 target tree.root_node
    ok (proof_of siblings))

-- `v == t` for a text `t`
unfoldable pub is_text : Value → Text → Bool
is_text (str_val s) t = bytes_eq s t
is_text _ t = false

-- One round of the loop over `raw.items()`.
unfoldable pub read_sibling : Key → Value → Option (ℕ × Bytes)
read_sibling k v = elim (key_int k) [
  | none ↦ none
  | some (negsuc n) ↦ none
  | some (pos d) ↦
      if ltb d depth_bits
      then elim (value_bytes v) [
        | none ↦ none
        | some s ↦ if length s == 32 then some (d, s) else none
      ]
      else none
]

-- The loop; a later entry for a depth replaces an earlier one.
unfoldable pub read_siblings : Siblings → Fields → Option Siblings
read_siblings found end = some found
read_siblings found (field k v rest) = elim (read_sibling k v) [
  | none ↦ none
  | some s ↦ read_siblings (s ∷ found) rest
]

unfoldable pub read_dict : Value → Option Siblings
read_dict (dict_val raw) = read_siblings [] raw
read_dict _ = none

-- `proof["siblings"]`, with a KeyError or a value that is no dict
unfoldable pub read_raw : Option Value → Option Siblings
unfolding read_dict
read_raw none = none
read_raw (some raw) = read_dict raw

-- `proof.get("scheme") != "smt-256"`
unfoldable pub if_scheme : Option Value → Option Siblings → Option Siblings
if_scheme none siblings = none
if_scheme (some scheme) siblings = if is_text scheme (codes "smt-256") then siblings else none

-- The checks on the proof: `none` is a `return False`, or an exception that becomes one.
unfoldable pub read_proof : Value → Option Siblings
unfolding read_raw if_scheme
read_proof (dict_val proof) =
    if_scheme (get proof (codes "scheme")) (read_raw (get proof (codes "siblings")))
read_proof _ = none

-- The check on the target.
unfoldable pub read_target : Value → Option Bytes
read_target v = elim (value_bytes v) [
  | none ↦ none
  | some target ↦ if length target * 8 == depth_bits then some target else none
]

-- `verify_absence`
unfoldable pub verify_absence : (Bytes → Bytes) → Value → Value → Value → Bool
verify_absence sha256 target_ref proof root_hex = elim (read_target target_ref) [
  | none ↦ false
  | some target ↦ elim (read_proof proof) [
    | none ↦ false
    | some siblings ↦ is_text root_hex (to_hex (climb sha256 depth_bits 0 target siblings))
  ]
]
