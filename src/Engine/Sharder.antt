-- ===== src/Engine/Sharder.antt =====
-- engine/sharder.py. blake2b with 8-byte digests is the parameter `blake2b`; a score is of any type
-- with a test `at_least`, since the source only compares scores.
use unlearn_shield.Prelude.{
  ℕ, ◌+◌, ◌-◌, ◌*◌, ◌%◌, ◌≤◌, ◌<◌, ◌≡◌, refl, ◌⊎◌, inl, inr, Bool, true, false, ◌&&◌, List, [], ◌∷◌,
  ltb, if◌then◌else◌, Bool-cases, arith,
}
use unlearn_shield.Prelude.Result.{Result, ok, err, value_error, map_result}
use unlearn_shield.Python.Bytes.{Bytes, Text}

-- `int.from_bytes(b, "big")`, of which `acc` are the leading bytes.
unfoldable pub int_from_bytes : ℕ → Bytes → ℕ
int_from_bytes acc [] = acc
int_from_bytes acc (b ∷ bs) = int_from_bytes (acc * 256 + b) bs

unfoldable pub stable_hash : (Bytes → Bytes) → Text → ℕ
unfolding int_from_bytes
stable_hash blake2b value = int_from_bytes 0 (blake2b value)

module _ {Score : Type 0} (blake2b : Bytes → Bytes) (at_least : Score → Score → Bool)
    (num_shards hot_shards : ℕ) (hot_threshold : Score) where
  unfoldable pub assign_shard : Text → Score → Result ℕ
  unfolding stable_hash
  assign_shard subject_id churn_score =
      if ltb 0 hot_shards && ltb hot_shards num_shards
      then (if at_least churn_score hot_threshold
          then ok (stable_hash blake2b subject_id % hot_shards)
          else ok (hot_shards + stable_hash blake2b subject_id % (num_shards - hot_shards)))
      else err value_error

  -- `assign_all`, on the pairs that `zip` makes.
  unfoldable pub assign_all : List (Text × Score) → Result (List ℕ)
  unfolding assign_shard
  assign_all subjects = map_result (λ s. assign_shard s.0 s.1) subjects

  -- Where a subject of a score belongs: the hot shards come first.
  abbrev pub IsPlaced : Score → ℕ → Type 0
  IsPlaced score shard =
      ((at_least score hot_threshold ≡ true) × (shard < hot_shards))
      ⊎ ((at_least score hot_threshold ≡ false) × (hot_shards ≤ shard) × (shard < num_shards))

  abbrev pub AllPlaced : List (Text × Score) → List ℕ → Type 0
  AllPlaced [] [] = Unit
  AllPlaced (s ∷ subjects) (shard ∷ shards) = IsPlaced s.1 shard × AllPlaced subjects shards
  AllPlaced _ _ = ⊥

  module _ (some_hot : 0 < hot_shards) (some_cold : hot_shards < num_shards) where
    assign_shard-IsPlaced :
        (subject_id : Text) (score : Score)
        → (shard : ℕ) × (assign_shard subject_id score ≡ ok shard) × IsPlaced score shard
    unfolding assign_shard
    assign_shard-IsPlaced subject_id score = elim (Bool-cases (at_least score hot_threshold)) [
      | inl e ↦ (
        stable_hash blake2b subject_id % hot_shards,
        rw e (ground (arith, some_hot, some_cold)),
        inl (e, omega (arith, some_hot)),
      )
      | inr e ↦ (
        hot_shards + stable_hash blake2b subject_id % (num_shards - hot_shards),
        rw e (ground (arith, some_hot, some_cold)),
        inr (e, omega arith, omega (arith, some_cold)),
      )
    ]

    -- Where there are hot and cold shards, every subject gets a shard: one of the first `hot_shards`
    -- if its score is at least the threshold, and one of the others if not.
    pub assign_all-AllPlaced :
        (subjects : List (Text × Score))
        → (shards : List ℕ) × (assign_all subjects ≡ ok shards) × AllPlaced subjects shards
    unfolding assign_all map_result
    assign_all-AllPlaced [] = ([], refl, tt)
    assign_all-AllPlaced (s ∷ subjects) =
        let (shard, e, placed) = assign_shard-IsPlaced s.0 s.1 in
        let (shards, f, all_placed) = assign_all-AllPlaced subjects in
        (shard ∷ shards, rw (e, f) refl, (placed, all_placed))
