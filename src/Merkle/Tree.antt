-- ===== src/Merkle/Tree.antt =====
-- verify/merkle.py: the tree, its root and its audit paths, and the walk of a verifier along a path.
-- SHA-256 is the parameter `sha256`.
use unlearn_shield.Prelude.{
  ℕ, zero, suc, ◌-◌, ◌/◌, ◌%◌, ◌^◌, Bool, true, false, ◌&&◌, ◌||◌, not, List, [], ◌∷◌, ◌++◌, Option,
  none, some, length, take, drop, ltb, leb, ◌==◌, if◌then◌else◌,
}
use unlearn_shield.Prelude.Result.{Result, ok, err, overflow_error, ◌>>=◌}
use unlearn_shield.Python.Bytes.{Bytes, Text}
use unlearn_shield.Python.Hex.{to_hex}
use unlearn_shield.Python.Value.{ℤ, pos, negsuc}
use unlearn_shield.Smt.Hash.{keys_of}

-- The last `count` bytes of a number, the most significant first.
unfoldable pub big_endian : ℕ → ℕ → Bytes
big_endian zero n = []
big_endian (suc count) n = big_endian count (n / 256) ++ (n % 256 ∷ [])

-- `n.to_bytes(8, "big")`
unfoldable pub to_bytes : ℕ → Result Bytes
unfolding big_endian
to_bytes n = if ltb n (2 ^ 64) then ok (big_endian 8 n) else err overflow_error

-- `n.bit_length()`; `fuel` is at least the number, which each round halves.
unfoldable pub bit_length_on : ℕ → ℕ → ℕ
bit_length_on zero n = 0
bit_length_on (suc fuel) n = let rest = bit_length_on fuel (n / 2) in if n == 0 then 0 else suc rest

-- `_split`
unfoldable pub split : ℕ → ℕ
unfolding bit_length_on
split n = 2 ^ (bit_length_on (n - 1) (n - 1) - 1)

-- The inner loop of `reconstruct_root`; `fuel` is at least fn, which each round halves.
unfoldable pub strip : ℕ → ℕ → ℕ → ℕ × ℕ
strip zero fn sn = (fn, sn)
strip (suc fuel) fn sn =
    let rest = strip fuel (fn / 2) (sn / 2) in
    if not (fn == 0) && (fn % 2 == 0) then rest else (fn, sn)

-- `(fn & 1) or (fn == sn)`
unfoldable pub turns_right : ℕ → ℕ → Bool
turns_right fn sn = (fn % 2 == 1) || (fn == sn)

-- The pair after a round.
unfoldable pub next : ℕ → ℕ → ℕ × ℕ
unfolding strip turns_right
next fn sn =
    let stripped = if turns_right fn sn then strip fn fn sn else (fn, sn) in
    (stripped.0 / 2, stripped.1 / 2)

module _ (sha256 : Bytes → Bytes) where
  -- `_commit`
  unfoldable pub commit : ℕ → Bytes → Result Text
  unfolding to_bytes
  commit tree_size mth_root = do
    size ← to_bytes tree_size
    ok (to_hex (sha256 (2 ∷ (size ++ mth_root))))

  -- `_leaf_hash`
  unfoldable pub leaf_hash : Bytes → Bytes
  leaf_hash data_bytes = sha256 (0 ∷ data_bytes)

  -- `_node_hash`
  unfoldable pub node_hash : Bytes → Bytes → Bytes
  node_hash left right = sha256 (1 ∷ (left ++ right))

  -- `_mth`; `fuel` is at least the number of leaves.
  unfoldable pub mth_on : ℕ → List Bytes → Bytes
  unfolding split leaf_hash node_hash
  mth_on fuel [] = sha256 []
  mth_on fuel (x ∷ []) = leaf_hash x
  mth_on zero (x ∷ y ∷ rest) = sha256 []
  mth_on (suc fuel) (x ∷ y ∷ rest) =
      let k = split (length (x ∷ y ∷ rest)) in
      node_hash (mth_on fuel (take k (x ∷ y ∷ rest))) (mth_on fuel (drop k (x ∷ y ∷ rest)))

  unfoldable pub mth : List Bytes → Bytes
  unfolding mth_on
  mth leaves = mth_on (length leaves) leaves

  -- `_audit_path`; `fuel` is at least the number of leaves.
  unfoldable pub audit_path_on : ℕ → ℕ → List Bytes → List Bytes
  unfolding split mth
  audit_path_on fuel index [] = []
  audit_path_on fuel index (x ∷ []) = []
  audit_path_on zero index (x ∷ y ∷ rest) = []
  audit_path_on (suc fuel) index (x ∷ y ∷ rest) =
      let k = split (length (x ∷ y ∷ rest)) in
      elim (ltb index k) [
        | true ↦
            audit_path_on fuel index (take k (x ∷ y ∷ rest)) ++ (mth (drop k (x ∷ y ∷ rest)) ∷ [])
        | false ↦
            audit_path_on fuel (index - k) (drop k (x ∷ y ∷ rest))
            ++ (mth (take k (x ∷ y ∷ rest)) ∷ [])
      ]

  unfoldable pub audit_path : ℕ → List Bytes → List Bytes
  unfolding audit_path_on
  audit_path index leaves = audit_path_on (length leaves) index leaves

  -- `build_root`
  unfoldable pub build_root : List Text → Result Text
  unfolding commit mth keys_of
  build_root subject_refs = do leaves ← keys_of subject_refs; commit (length leaves) (mth leaves)

  -- The outer loop of `reconstruct_root` and the return after it.
  unfoldable pub reconstruct_on : ℕ → ℕ → Bytes → List Bytes → Option Bytes
  unfolding next turns_right node_hash
  reconstruct_on fn sn node [] = if sn == 0 then some node else none
  reconstruct_on fn sn node (sibling ∷ path) =
      let node' = if turns_right fn sn then node_hash sibling node else node_hash node sibling in
      let rest = reconstruct_on (next fn sn).0 (next fn sn).1 node' path in
      if sn == 0 then none else rest

  -- `reconstruct_root`, on a size that is not negative
  unfoldable pub reconstruct_root : Bytes → ℤ → ℕ → List Bytes → Option Bytes
  unfolding reconstruct_on leaf_hash
  reconstruct_root leaf (negsuc index) tree_size path = none
  reconstruct_root leaf (pos index) tree_size path =
      if leb tree_size index
      then none
      else reconstruct_on index (tree_size - 1) (leaf_hash leaf) path
