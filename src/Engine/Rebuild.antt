-- ===== src/Engine/Rebuild.antt =====
-- engine/rebuild.py: `rebuild_batch_by_ref`, with the manifests of verify/manifest.py. The result
-- comes with the state that the call leaves behind, also where it raises.
use unlearn_shield.Prelude.{
  ℕ, zero, suc, ◌+◌, ◌-◌, ◌/◌, ◌%◌, List, [], ◌∷◌, ◌++◌, Option, none, some, take, ltb, ◌==◌,
  if◌then◌else◌,
}
use unlearn_shield.Prelude.Result.{Result, ok, err, key_error, ◌>>=◌, map_result}
use unlearn_shield.Python.Bytes.{Bytes, Text, codes}
use unlearn_shield.Python.Value.{Value}
use unlearn_shield.Smt.Tree.{SparseMerkleTree, remove, root}
use unlearn_shield.Smt.Proof.{prove_absence}
use unlearn_shield.Smt.Cache.{cache_tree}
use unlearn_shield.Engine.Store.{Row, Store, save_shard, load_checkpoint, pop_entries}
use unlearn_shield.Engine.Train.{Trainer, Trained, train_shard}
use unlearn_shield.Engine.Purge.{Purged, purge_batch}

-- The decimal digits of a number, of which it has fewer than `fuel`, in front of `acc`.
unfoldable pub digits : ℕ → ℕ → Text → Text
digits zero n acc = acc
digits (suc fuel) n acc =
    let rest = digits fuel (n / 10) ((48 + n % 10) ∷ acc) in
    if ltb n 10 then (48 + n) ∷ acc else rest

unfoldable pub decimal : ℕ → Text
unfolding digits
decimal n = digits (suc n) n []

-- verify/manifest.py: the dict that `build` returns, and `m["signature"]`.
pub record Manifest : Type 0 where
  pub subject_ref : Text
  pub shard : ℕ
  pub resumed_from : Text
  pub dataset_root : Text
  pub absence_proof : Value
  pub code_digest : Text
  pub config_digest : Text
  pub result_weights : Text
  pub model_version : Text
  pub purged_at : Text
  pub completed_at : Text
  pub signature : Option Text

-- The dict that the call returns; `replay` is the last four.
pub record Rebuilt (D Saved : Type 0) : Type 0 where
  pub shard : ℕ
  pub resumed_from : Text
  pub rows_purged : ℕ
  pub slices_retrained : List ℕ
  pub result_weights : Text
  pub manifests : List (Text × Manifest)
  pub records : List (Row D)
  pub from_slice : ℕ
  pub resume_state : Option Saved
  pub seed : ℕ

-- What a call is given besides the references: the settings, the clock's two readings and, where
-- `sign` is set, `sign_manifest`.
pub record Context : Type 0 where
  pub num_slices : ℕ
  pub seed : ℕ
  pub code_digest : Text
  pub config_digest : Text
  pub purged_at : Text
  pub completed_at : Text
  pub sign_manifest : Option (Manifest → Result Text)

-- `digests[slice_idx]`
unfoldable pub digest_at : List (ℕ × Text) → ℕ → Result Text
digest_at [] slice_idx = err key_error
digest_at ((i, d) ∷ rest) slice_idx = if i == slice_idx then ok d else digest_at rest slice_idx

-- `range(first, first + n)`
unfoldable pub range_from : ℕ → ℕ → List ℕ
range_from first zero = []
range_from first (suc n) = first ∷ range_from (suc first) n

-- `f"slice{min_slice - 1}" if min_slice > 0 else "fresh_init"`
unfoldable pub resumed_from_of : ℕ → Text
unfolding decimal
resumed_from_of zero = codes "fresh_init"
resumed_from_of (suc i) = codes "slice" ++ decimal i

-- The checkpoint to resume from, where there is one.
unfoldable pub resume_state_of :
    {Saved : Type 0} → List ((ℕ × ℕ) × Saved) → ℕ → ℕ → Result (Option Saved)
resume_state_of checkpoints shard zero = ok none
resume_state_of checkpoints shard (suc i) = do
  saved ← load_checkpoint checkpoints shard i
  ok (some saved)

unfoldable pub sign_with : Option (Manifest → Result Text) → Manifest → Result Manifest
sign_with none m = ok m
sign_with (some sign) m = do s ← sign m; ok (record m { signature = some s })

-- `engine` is the prefix of the model's version, by which the two engines differ.
module _ (sha256 : Bytes → Bytes) (c : Context) (engine : Text) where
  -- `manifest_mod.build`, as the loop calls it.
  unfoldable pub build_manifest :
      {D : Type 0} → Purged D → SparseMerkleTree → Text → Text → Value → Manifest
  unfolding resumed_from_of decimal
  build_manifest p tree result_weights ref proof = record {
    subject_ref = ref;
    shard = p.shard;
    resumed_from = resumed_from_of p.min_slice;
    dataset_root = root tree;
    absence_proof = proof;
    code_digest = c.code_digest;
    config_digest = c.config_digest;
    result_weights = result_weights;
    model_version = engine ++ decimal p.shard ++ codes "-" ++ take 12 result_weights;
    purged_at = c.purged_at;
    completed_at = c.completed_at;
    signature = none;
  }

  -- One round of the loop over the manifests.
  unfoldable pub manifest_for :
      {D : Type 0} → Purged D → SparseMerkleTree → Text → Text → Result (Text × Manifest)
  unfolding build_manifest
  manifest_for p tree result_weights ref = do
    proof ← prove_absence sha256 tree ref
    m ← sign_with c.sign_manifest (build_manifest p tree result_weights ref proof)
    ok (ref, m)

module _ {D Model Saved Preproc : Type 0} (trainer : Trainer D Model Saved Preproc)
    (sha256 : Bytes → Bytes) (c : Context) where
  -- The retraining: the resume state, and what it trains.
  unfoldable pub retrain :
      Purged D → Store D Saved Preproc → Result (Option Saved × Trained Saved Preproc)
  unfolding resume_state_of
  retrain p store = do
    state ← resume_state_of store.checkpoints p.shard p.min_slice
    trained ← train_shard trainer c.num_slices p.shard c.seed p.min_slice p.records state store
    ok (state, trained)

  -- From the tree's update on, in the state after the retraining.
  unfoldable pub publish :
      Purged D
      → List Text
      → Option Saved
      → Text
      → Store D Saved Preproc
      → Store D Saved Preproc × Result (Rebuilt D Saved)
  unfolding manifest_for resumed_from_of range_from
  publish p refs state weights store = elim (remove sha256 p.tree_before refs) [
    | err e ↦ (store, err e)
    | ok tree ↦
        let cached = record store { cache = cache_tree p.shard tree store.cache } in
        elim (map_result (manifest_for sha256 c (codes "shard") p tree weights) refs) [
          | err e ↦ (cached, err e)
          | ok manifests ↦ elim (pop_entries store.routing refs) [
            | err e ↦ (cached, err e)
            | ok routing ↦ (
              record cached { routing = routing },
              ok (record {
                shard = p.shard;
                resumed_from = resumed_from_of p.min_slice;
                rows_purged = p.dropped_total;
                slices_retrained = range_from p.min_slice (c.num_slices - p.min_slice);
                result_weights = weights;
                manifests = manifests;
                records = p.records;
                from_slice = p.min_slice;
                resume_state = state;
                seed = c.seed;
              }),
            )
          ]
        ]
  ]

  -- `rebuild_batch_by_ref`
  unfoldable pub rebuild_batch_by_ref :
      Store D Saved Preproc → List Text → Store D Saved Preproc × Result (Rebuilt D Saved)
  unfolding retrain publish digest_at
  rebuild_batch_by_ref store refs = elim (purge_batch sha256 store refs) [
    | err e ↦ (store, err e)
    | ok p ↦
        let purged = record store { shards = save_shard p.shard p.records store.shards } in
        elim (retrain p purged) [
          | err e ↦ (purged, err e)
          | ok (state, trained) ↦
              let retrained = record purged {
                checkpoints = trained.checkpoints;
                preprocs = trained.preprocs;
              } in
              elim (digest_at trained.digests (c.num_slices - 1)) [
                | err e ↦ (retrained, err e)
                | ok weights ↦ publish p refs state weights retrained
              ]
        ]
  ]
