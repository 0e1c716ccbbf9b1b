-- ===== src/Smt/Hash.antt =====
-- verify/smt.py: `_leaf`, `_node`, `DEFAULTS`, `_bit`, `_singleton_root`, `_keys`, `fingerprint_of`.
-- SHA-256 is the parameter `sha256`. A level is counted from the leaves: a subtree at `depth` has
-- `levels = DEPTH - depth` levels below it, which is what its recursion runs on.
use unlearn_shield.Prelude.{
  ℕ, zero, suc, ◌-◌, ◌/◌, ◌%◌, ◌^◌, ◌≡◌, Bool, List, [], ◌∷◌, ◌++◌, none, some, get_or, length,
  ◌==◌, if◌then◌else◌, All,
}
use unlearn_shield.Prelude.Result.{Result, ok, err, value_error, ◌>>=◌, map_result}
use unlearn_shield.Python.Bytes.{Bytes, Text, IsByte, codes, sorted_set}
use unlearn_shield.Python.Hex.{from_hex, to_hex}

-- What the tree relies on of the hash: a digest is 32 octets.
pub record IsDigest (sha256 : Bytes → Bytes) : Type 0 where
  pub size : (b : Bytes) → length (sha256 b) ≡ 32
  pub octets : (b : Bytes) → All IsByte (sha256 b)

-- All digests have 32 entries, which are not bounded: an injective function can be sized, so that
-- no collision follows from the size alone.
abbrev pub IsSized : (Bytes → Bytes) → Type 0
IsSized sha256 = (b : Bytes) → length (sha256 b) ≡ 32

-- Two inputs with one digest.
abbrev pub Collision : (Bytes → Bytes) → Type 0
Collision sha256 = (a : Bytes) × (b : Bytes) × ¬ (a ≡ b) × (sha256 a ≡ sha256 b)

abbrev pub depth_bits : ℕ
depth_bits = 256

-- `_bit`: the most significant bit of the first byte is bit 0. References are digests, so that
-- no index is out of range; where a caller can pass a shorter text, the IndexError is its own.
unfoldable pub bit : Bytes → ℕ → Bool
bit key depth = (get_or key (depth / 8) 0 / 2 ^ (7 - depth % 8)) % 2 == 1

-- `bytes.fromhex(r)`, raising
unfoldable pub ref_bytes : Text → Result Bytes
ref_bytes r = elim (from_hex r) [ none ↦ err value_error | some b ↦ ok b ]

-- `_keys`
unfoldable pub keys_of : List Text → Result (List Bytes)
unfolding ref_bytes
keys_of refs = do ks ← map_result ref_bytes refs; ok (sorted_set ks)

-- `b"".join(keys)`
unfoldable pub join : List Bytes → Bytes
join [] = []
join (k ∷ ks) = k ++ join ks

module _ (sha256 : Bytes → Bytes) where
  unfoldable pub leaf : Bytes → Bytes
  leaf key = sha256 (0 ∷ key)

  unfoldable pub node_hash : Bytes → Bytes → Bytes
  node_hash left right = sha256 (1 ∷ (left ++ right))

  unfoldable pub empty_leaf : Bytes
  empty_leaf = sha256 (2 ∷ codes "unlearnshield-empty")

  -- `DEFAULTS[DEPTH - levels]`
  unfoldable pub default_hash : ℕ → Bytes
  default_hash zero = empty_leaf
  default_hash (suc levels) = let below = default_hash levels in node_hash below below

  -- `EMPTY_ROOT`
  unfoldable pub empty_root : Text
  empty_root = to_hex (default_hash depth_bits)

  -- `_singleton_root`: the node that the loop has reached when `levels` rounds are done.
  unfoldable pub singleton_root : ℕ → ℕ → Bytes → Bytes
  singleton_root zero depth key = leaf key
  singleton_root (suc levels) depth key =
      let node = singleton_root levels (suc depth) key in
      if bit key depth
      then node_hash (default_hash levels) node
      else node_hash node (default_hash levels)

  unfoldable pub fingerprint_of : List Text → Result Bytes
  fingerprint_of refs = do ks ← keys_of refs; ok (sha256 (join ks))
