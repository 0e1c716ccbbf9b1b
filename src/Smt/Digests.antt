-- ===== src/Smt/Digests.antt =====
-- What the tree stores are digests.
use unlearn_shield.Prelude.{ℕ, zero, suc, inl, inr, List, Bool-cases}
use unlearn_shield.Python.Bytes.{Bytes}
use unlearn_shield.Smt.Hash.{
  IsDigest, bit, leaf, node_hash, empty_leaf, default_hash, singleton_root,
}
use unlearn_shield.Smt.Tree.{Node, empty, single, branch, hash}
use unlearn_shield.Smt.Reference.{Repr}
use unlearn_shield.Smt.Keys.{IsKey}

module _ (sha256 : Bytes → Bytes) (digest : IsDigest sha256) where
  pub digest-IsKey : (b : Bytes) → IsKey (sha256 b)
  digest-IsKey b = (digest.size b, digest.octets b)

  pub default_hash-IsKey : (n : ℕ) → IsKey (default_hash sha256 n)
  unfolding default_hash empty_leaf node_hash
  default_hash-IsKey zero = digest-IsKey _
  default_hash-IsKey (suc n) = digest-IsKey _

  pub singleton_root-IsKey : (n d : ℕ) (k : Bytes) → IsKey (singleton_root sha256 n d k)
  unfolding singleton_root leaf node_hash
  singleton_root-IsKey zero d k = digest-IsKey _
  singleton_root-IsKey (suc n) d k = elim (Bool-cases (bit k d)) [
    | inl e ↦ rw e (digest-IsKey _)
    | inr e ↦ rw e (digest-IsKey _)
  ]

  pub Repr-IsKey : (t : Node) (n d : ℕ) (ks : List Bytes) → Repr sha256 t n d ks → IsKey (hash t)
  Repr-IsKey (empty h) n d ks r = rw (r.1) (default_hash-IsKey n)
  Repr-IsKey (single h k) n d ks r = rw (r.1) (singleton_root-IsKey n d k)
  Repr-IsKey (branch h l r) zero d ks p = absurd p
  Repr-IsKey (branch h l r) (suc n) d ks p = unfold node_hash in rw (p.2) (digest-IsKey _)
