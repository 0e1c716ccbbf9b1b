-- ===== src/Smt/Tree.antt =====
-- verify/smt.py: `_subtree_root`, `_build`, `_remove_key`, and `SparseMerkleTree` with its
-- constructor, `root`, `fingerprint` and `remove`, and `build_root`.
use Prim.Native.Nat.{pred}
use unlearn_shield.Prelude.{ℕ, zero, suc, not, List, [], ◌∷◌, leb, length, keep, all, if◌then◌else◌}
use unlearn_shield.Prelude.Result.{Result, ok, err, value_error, index_error, ◌>>=◌, map_result}
use unlearn_shield.Python.Bytes.{Bytes, Text, bytes_eq, mem}
use unlearn_shield.Python.Hex.{to_hex}
use unlearn_shield.Smt.Hash.{
  depth_bits, bit, ref_bytes, keys_of, join, node_hash, default_hash, singleton_root,
}

-- A materialised node. `single` is one key that occupies the whole subtree.
pub data Node : Type 0 where
  empty : Bytes → Node
  single : Bytes → Bytes → Node
  branch : Bytes → Node → Node → Node

-- `node[0]`
abbrev pub hash : Node → Bytes
hash (empty h) = h
hash (single h k) = h
hash (branch h l r) = h

pub record SparseMerkleTree : Type 0 where
  pub keys : List Bytes
  pub root_node : Node

-- The keys whose path turns left, and right, at `depth`.
unfoldable pub lefts : ℕ → List Bytes → List Bytes
lefts depth = keep (λ k. not (bit k depth))

unfoldable pub rights : ℕ → List Bytes → List Bytes
rights depth = keep (λ k. bit k depth)

-- A key shorter than its path makes `_bit` raise, in `_singleton_root` at the latest.
unfoldable pub full_paths : List Bytes → Result (List Bytes)
full_paths ks = if all (λ k. leb 32 (length k)) ks then ok ks else err index_error

module _ (sha256 : Bytes → Bytes) where
  -- `_subtree_root`. Two keys are never left when the path ends, since keys are distinct.
  unfoldable pub subtree_root : ℕ → ℕ → List Bytes → Bytes
  subtree_root levels depth [] = default_hash sha256 levels
  subtree_root levels depth (k ∷ []) = singleton_root sha256 levels depth k
  subtree_root zero depth (k ∷ l ∷ ks) = default_hash sha256 zero
  subtree_root (suc levels) depth (k ∷ l ∷ ks) =
      let left = subtree_root levels (suc depth) (lefts depth (k ∷ l ∷ ks)) in
      let right = subtree_root levels (suc depth) (rights depth (k ∷ l ∷ ks)) in
      node_hash sha256 left right

  -- `_build`
  unfoldable pub build : ℕ → ℕ → List Bytes → Node
  build levels depth [] = empty (default_hash sha256 levels)
  build levels depth (k ∷ []) = single (singleton_root sha256 levels depth k) k
  build zero depth (k ∷ l ∷ ks) = empty (default_hash sha256 zero)
  build (suc levels) depth (k ∷ l ∷ ks) =
      let left = build levels (suc depth) (lefts depth (k ∷ l ∷ ks)) in
      let right = build levels (suc depth) (rights depth (k ∷ l ∷ ks)) in
      branch (node_hash sha256 (hash left) (hash right)) left right

  -- `_remove_key`
  unfoldable pub remove_key : ℕ → ℕ → Node → Bytes → Result Node
  remove_key levels depth (empty h) target = err value_error
  remove_key levels depth (single h key) target =
      if bytes_eq key target then ok (empty (default_hash sha256 levels)) else err value_error
  remove_key levels depth (branch h left right) target =
      let in_left = remove_key (pred levels) (suc depth) left target in
      let in_right = remove_key (pred levels) (suc depth) right target in
      if bit target depth
      then (do new ← in_right; ok (branch (node_hash sha256 (hash left) (hash new)) left new))
      else (do new ← in_left; ok (branch (node_hash sha256 (hash new) (hash right)) new right))

  -- `SparseMerkleTree(refs)`
  unfoldable pub new_tree : List Text → Result SparseMerkleTree
  new_tree refs = do
    found ← keys_of refs
    ks ← full_paths found
    ok (record { keys = ks; root_node = build depth_bits 0 ks })

  -- The loop of `remove`, with `removed` as it grows.
  unfoldable pub remove_all : Node → List Bytes → List Bytes → Result (Node × List Bytes)
  remove_all root removed [] = ok (root, removed)
  remove_all root removed (t ∷ ts) =
      let skip = remove_all root removed ts in
      if mem t removed
      then skip
      else (do root' ← remove_key depth_bits 0 root t; remove_all root' (t ∷ removed) ts)

  -- `SparseMerkleTree.remove`
  unfoldable pub remove : SparseMerkleTree → List Text → Result SparseMerkleTree
  remove tree refs = do
    targets ← map_result ref_bytes refs
    if all (λ t. mem t tree.keys) targets
        then (do
          done ← remove_all tree.root_node [] targets
          ok (record { keys = keep (λ k. not (mem k done.1)) tree.keys; root_node = done.0 }))
        else err value_error

  unfoldable pub fingerprint : SparseMerkleTree → Bytes
  fingerprint tree = sha256 (join tree.keys)

  unfoldable pub build_root : List Text → Result Text
  build_root refs = do
    found ← keys_of refs
    ks ← full_paths found
    ok (to_hex (subtree_root depth_bits 0 ks))

-- `SparseMerkleTree.root`
unfoldable pub root : SparseMerkleTree → Text
root tree = to_hex (hash tree.root_node)
