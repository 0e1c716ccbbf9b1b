-- ===== src/Smt/Trees.antt =====
-- Well-formed trees: what the constructor builds, and the root that they publish.
use unlearn_shield.Prelude.{◌≡◌, ap, ◌∙◌, List, All}
use unlearn_shield.Prelude.Result.{ok}
use unlearn_shield.Python.Bytes.{Bytes, Text}
use unlearn_shield.Python.Hex.{to_hex}
use unlearn_shield.Python.Sorting.{IsAscending}
use unlearn_shield.Smt.Hash.{depth_bits}
use unlearn_shield.Smt.Tree.{SparseMerkleTree, build, new_tree, build_root, root}
use unlearn_shield.Smt.Reference.{reference, Repr, Repr-hash, build-Repr, subtree_root-build}
use unlearn_shield.Smt.Keys.{
  IsRef, IsKey, key_set, keys_of-IsRef, key_set-IsKey, key_set-IsAscending, full_paths-IsKey,
  IsAscending-Apart,
}

module _ (sha256 : Bytes → Bytes) where
  -- 32-byte keys in order, and a root node that represents them.
  pub record IsTree (tree : SparseMerkleTree) : Type 0 where
    pub full : All IsKey tree.keys
    pub ascending : IsAscending tree.keys
    pub represents : Repr sha256 tree.root_node depth_bits 0 tree.keys

  -- The tree that is built over a set of references.
  abbrev pub tree_of : List Text → SparseMerkleTree
  tree_of refs = record {
    keys = key_set refs;
    root_node = build sha256 depth_bits 0 (key_set refs);
  }

  pub new_tree-IsRef :
      (refs : List Text) → All IsRef refs → new_tree sha256 refs ≡ ok (tree_of refs)
  unfolding new_tree
  new_tree-IsRef refs h =
      rw (keys_of-IsRef refs h, full_paths-IsKey (key_set refs) (key_set-IsKey refs h))

  pub tree_of-IsTree : (refs : List Text) → All IsRef refs → IsTree (tree_of refs)
  tree_of-IsTree refs h =
      let full = key_set-IsKey refs h in
      let ascending = key_set-IsAscending refs in
      record {
        full = full;
        ascending = ascending;
        represents =
            build-Repr sha256 depth_bits 0 (key_set refs)
              (IsAscending-Apart (key_set refs) full ascending);
      }

  -- A tree publishes the root of the full binary tree over its keys, whatever its shape in memory.
  pub root-reference :
      (tree : SparseMerkleTree)
      → IsTree tree
      → root tree ≡ to_hex (reference sha256 depth_bits 0 tree.keys)
  unfolding root
  root-reference tree h =
      ap to_hex (Repr-hash sha256 tree.root_node depth_bits 0 tree.keys h.represents)

  -- `build_root` and the constructor succeed on 32-byte references, and agree on the root: that of
  -- the full binary tree of 2^256 leaves over the set of keys.
  pub build_root-reference :
      (refs : List Text)
      → All IsRef refs
      → (build_root sha256 refs ≡ ok (to_hex (reference sha256 depth_bits 0 (key_set refs))))
        × (new_tree sha256 refs ≡ ok (tree_of refs))
        × (root (tree_of refs) ≡ to_hex (reference sha256 depth_bits 0 (key_set refs)))
  unfolding build_root
  build_root-reference refs h = (
    rw (keys_of-IsRef refs h, full_paths-IsKey (key_set refs) (key_set-IsKey refs h))
        (ap (λ b. ok (to_hex b))
          (subtree_root-build sha256 depth_bits 0 (key_set refs)
            ∙ Repr-hash sha256 _ depth_bits 0 (key_set refs) (tree_of-IsTree refs h).represents)),
    new_tree-IsRef refs h,
    root-reference (tree_of refs) (tree_of-IsTree refs h),
  )
