-- ===== src/Worker/Promote.antt =====
-- worker/jobs.py: `_promote`, up to its call of `record_eval`, on the tables `checkpoints` and
-- `model_versions` of db/schema.sql. The path that `promote_artifact` returns and the time are
-- arguments. `latest` is the query with `ORDER BY promoted_at DESC LIMIT 1`: PostgreSQL returns any
-- one of the rows with the greatest time.
use unlearn_shield.Prelude.{
  ℕ, ◌≤◌, ◌<◌, ◌≡◌, refl, inl, inr, Bool, true, false, List, [], ◌∷◌, ◌++◌, Option, none, some,
  take, All, All-In, In, if◌then◌else◌, arith,
}
use unlearn_shield.Python.Bytes.{Text, codes, bytes_eq, bytes_eq_refl}
use unlearn_shield.Engine.Rebuild.{decimal}

-- A row of `model_versions`; the JSON object is an association list, the newest entry first.
pub record Version : Type 0 where
  pub model_version : Text
  pub shard_checkpoints : List (Text × Text)
  pub eval_set_version : Text
  pub promoted_at : ℕ

-- A row of `checkpoints`.
pub record Checkpoint : Type 0 where
  pub checkpoint_hash : Text
  pub shard : ℕ
  pub slice_idx : ℕ
  pub file_path : Text
  pub code_digest : Text

pub record Registry : Type 0 where
  pub checkpoints : List Checkpoint
  pub versions : List Version

-- `shard_checkpoints.get(key)`
unfoldable pub hash_of : Text → List (Text × Text) → Option Text
hash_of key [] = none
hash_of key ((k, h) ∷ rest) = if bytes_eq k key then some h else hash_of key rest

unfoldable pub version_taken : Text → List Version → Bool
version_taken name [] = false
version_taken name (v ∷ vs) = if bytes_eq v.model_version name then true else version_taken name vs

unfoldable pub checkpoint_taken : Text → List Checkpoint → Bool
checkpoint_taken hash [] = false
checkpoint_taken hash (c ∷ cs) =
    if bytes_eq c.checkpoint_hash hash then true else checkpoint_taken hash cs

-- `dict(row[1]) if row else {}`
unfoldable pub carried : Option Version → List (Text × Text)
carried none = []
carried (some v) = v.shard_checkpoints

-- `row[2] if row else "v0"`
unfoldable pub eval_set_of : Option Version → Text
eval_set_of none = codes "v0"
eval_set_of (some v) = v.eval_set_version

module _ (latest : List Version → Option Version) (now last_slice : ℕ) (code_digest : Text) where
  -- The row that `_promote` inserts.
  unfoldable pub version_for : ℕ → Text → Option Version → Version
  unfolding carried eval_set_of decimal
  version_for shard result_weights row = record {
    model_version = codes "v-" ++ take 12 result_weights;
    shard_checkpoints = (decimal shard, result_weights) ∷ carried row;
    eval_set_version = eval_set_of row;
    promoted_at = now;
  }

  -- `_promote`: both inserts do nothing on a conflict.
  unfoldable pub promote : ℕ → Text → Text → Registry → Registry
  unfolding version_for
  promote shard result_weights cas_path registry =
      let version = version_for shard result_weights (latest registry.versions) in
      record {
        checkpoints =
            if checkpoint_taken result_weights registry.checkpoints
            then registry.checkpoints
            else (record {
              checkpoint_hash = result_weights;
              shard = shard;
              slice_idx = last_slice;
              file_path = cas_path;
              code_digest = code_digest;
            })
              ∷ registry.checkpoints;
        versions =
            if version_taken version.model_version registry.versions
            then registry.versions
            else version ∷ registry.versions;
      }

-- A row with the greatest time, where there is a row.
pub record IsLatest (latest : List Version → Option Version) : Type 0 where
  pub finds : (v : Version) (vs : List Version) → (w : Version) × (latest (v ∷ vs) ≡ some w)
  pub holds : (vs : List Version) (w : Version) → latest vs ≡ some w → In w vs
  pub greatest :
      (vs : List Version) (w : Version)
      → latest vs ≡ some w
      → All (λ (v : Version). v.promoted_at ≤ w.promoted_at) vs

-- A row later than all the others is the one that is found.
newest_found :
    (latest : List Version → Option Version) (v : Version) (vs : List Version)
    → IsLatest latest
    → All (λ (w : Version). w.promoted_at < v.promoted_at) vs
    → latest (v ∷ vs) ≡ some v
newest_found latest v vs is_latest older =
    let (w, e) = is_latest.finds v vs in
    elim (is_latest.holds (v ∷ vs) w e) [
      | inl same ↦ rw same at e
      | inr m ↦ absurd (
          omega (
            arith,
            (is_latest.greatest (v ∷ vs) w e).0,
            All-In (λ (u : Version). u.promoted_at < v.promoted_at) w vs older m,
          ))
    ]

-- In a transaction later than every promotion, with a version name that is free, `_promote` makes
-- the version that is found next: it has the new checkpoint for the shard, and for every other key
-- what the version found before had.
pub promote_carries :
    (latest : List Version → Option Version) (now last_slice : ℕ) (code_digest cas_path : Text)
    (shard : ℕ) (result_weights : Text) (registry : Registry)
    → IsLatest latest
    → All (λ (v : Version). v.promoted_at < now) registry.versions
    → version_taken (codes "v-" ++ take 12 result_weights) registry.versions ≡ false
    → (v : Version) × (latest
          (promote latest now last_slice code_digest shard result_weights cas_path
            registry).versions
        ≡ some v)
      × (hash_of (decimal shard) v.shard_checkpoints ≡ some result_weights)
      × ((key : Text)
          → bytes_eq (decimal shard) key ≡ false
          → hash_of key v.shard_checkpoints ≡ hash_of key (carried (latest registry.versions)))
unfolding promote version_for hash_of
promote_carries latest now last_slice code_digest cas_path shard result_weights registry is_latest
      older free =
    let v =
      version_for latest now last_slice code_digest shard result_weights
        (latest registry.versions) in
    (
      v,
      rw free (newest_found latest v registry.versions is_latest older),
      rw (bytes_eq_refl (decimal shard)) refl,
      λ key differ. rw differ refl,
    )
