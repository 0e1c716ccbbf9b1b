-- ===== src/Gbdt/Rebuild.antt =====
-- engine/gbdt.py: the boosters on disk, and `rebuild_batch_by_ref` with the state that the call
-- leaves behind, also where it raises.
use unlearn_shield.Prelude.{
  ℕ, ◌-◌, List, [], ◌∷◌, Option, none, some, map, length, ◌==◌, if◌then◌else◌,
}
use unlearn_shield.Prelude.Result.{Result, ok, err, attribute_error, file_error, ◌>>=◌, map_result}
use unlearn_shield.Python.Bytes.{Bytes, Text, codes}
use unlearn_shield.Python.Hex.{to_hex}
use unlearn_shield.Smt.Tree.{remove}
use unlearn_shield.Smt.Cache.{Cache, tree_for_shard, cache_tree}
use unlearn_shield.Engine.Store.{Row, Routing, entry_of, load_shard, save_shard, pop_entries}
use unlearn_shield.Engine.Purge.{Purged, batch_of}
use unlearn_shield.Engine.Rebuild.{Context, Manifest, manifest_for, resumed_from_of, range_from}
use unlearn_shield.Gbdt.Boost.{Columns, Xgb, train_shard, rollback, rebuild_booster}

-- The files of the engine and the tree cache; one booster for each shard.
pub record Store (F Booster : Type 0) : Type 0 where
  pub routing : Routing
  pub shards : List (ℕ × List (Row (Columns F)))
  pub boosters : List (ℕ × Booster)
  pub cache : Cache

-- `load_booster`
unfoldable pub load_booster : {Booster : Type 0} → List (ℕ × Booster) → ℕ → Result Booster
load_booster [] shard = err file_error
load_booster ((k, b) ∷ rest) shard = if k == shard then ok b else load_booster rest shard

-- `save_booster`
unfoldable pub save_booster :
    {Booster : Type 0} → Booster → ℕ → List (ℕ × Booster) → List (ℕ × Booster)
save_booster b shard boosters = (shard, b) ∷ boosters

-- The dict that the call returns; `replay` is the last four.
pub record Rebuilt (F Booster : Type 0) : Type 0 where
  pub shard : ℕ
  pub resumed_from : Text
  pub rows_purged : ℕ
  pub slices_retrained : List ℕ
  pub result_weights : Text
  pub manifests : List (Text × Manifest)
  pub records : List (Row (Columns F))
  pub from_slice : ℕ
  pub resume_booster : Option Booster
  pub trees_per_slice : ℕ

-- What the call has worked out when it first writes.
pub record Planned (F Booster : Type 0) : Type 0 where
  pub purged : Purged (Columns F)
  pub booster : Booster
  pub rebuilt : Option Booster

module _ {F Booster : Type 0} (xgb : Xgb F Booster) (sha256 : Bytes → Bytes) (c : Context)
    (trees_per_slice : ℕ) where
  -- `rebuild_batch_by_ref` up to `save_shard`.
  unfoldable pub plan_batch : Store F Booster → List Text → Result (Planned F Booster)
  plan_batch store refs = do
    entries ← map_result (entry_of store.routing) refs
    batch ← batch_of entries
    records ← load_shard store.shards batch.0
    tree_before ←
        tree_for_shard sha256 store.cache batch.0
          (map (λ (r : Row (Columns F)). r.subject_ref) records)
    booster ← load_booster store.boosters batch.0
    made ← rebuild_booster xgb c.num_slices trees_per_slice refs records batch.1 booster
    ok (record {
      purged = record {
        shard = batch.0;
        min_slice = batch.1;
        tree_before = tree_before;
        records = made.1;
        dropped_total = length records - length made.1;
      };
      booster = booster;
      rebuilt = made.0;
    })

  -- `sha256(rebuilt.save_raw(raw_format="json")).hexdigest()`
  unfoldable pub weights_of : Booster → Text
  weights_of b = to_hex (sha256 (xgb.save_raw b))

  -- From the second rollback on, in the state after the booster is saved.
  unfoldable pub publish :
      Planned F Booster
      → List Text
      → Text
      → Store F Booster
      → Store F Booster × Result (Rebuilt F Booster)
  unfolding manifest_for resumed_from_of range_from
  publish plan refs weights store =
      elim (rollback xgb trees_per_slice plan.booster plan.purged.min_slice) [
        | err e ↦ (store, err e)
        | ok resume_booster ↦ elim (remove sha256 plan.purged.tree_before refs) [
          | err e ↦ (store, err e)
          | ok tree ↦
              let cached = record store { cache = cache_tree plan.purged.shard tree store.cache } in
              elim (map_result (manifest_for sha256 c (codes "gbdt-shard") plan.purged tree weights)
                refs) [
                  | err e ↦ (cached, err e)
                  | ok manifests ↦ elim (pop_entries store.routing refs) [
                    | err e ↦ (cached, err e)
                    | ok routing ↦ (
                      record cached { routing = routing },
                      ok (record {
                        shard = plan.purged.shard;
                        resumed_from = resumed_from_of plan.purged.min_slice;
                        rows_purged = plan.purged.dropped_total;
                        slices_retrained =
                            range_from plan.purged.min_slice (c.num_slices - plan.purged.min_slice);
                        result_weights = weights;
                        manifests = manifests;
                        records = plan.purged.records;
                        from_slice = plan.purged.min_slice;
                        resume_booster = resume_booster;
                        trees_per_slice = trees_per_slice;
                      }),
                    )
                  ]
                ]
        ]
      ]

  -- `rebuild_batch_by_ref`
  unfoldable pub rebuild_batch_by_ref :
      Store F Booster → List Text → Store F Booster × Result (Rebuilt F Booster)
  unfolding plan_batch publish weights_of
  rebuild_batch_by_ref store refs = elim (plan_batch store refs) [
    | err e ↦ (store, err e)
    | ok plan ↦
        let purged = record store {
          shards = save_shard plan.purged.shard plan.purged.records store.shards;
        } in
        -- None has no `save_model`.
        elim (plan.rebuilt) [
          | none ↦ (purged, err attribute_error)
          | some b ↦
              publish plan refs (weights_of b)
                (record purged { boosters = save_booster b plan.purged.shard store.boosters })
        ]
  ]

  -- `replay_digest`
  unfoldable pub replay_digest : Rebuilt F Booster → Result Text
  unfolding weights_of
  replay_digest r = do
    rebuilt ← train_shard xgb c.num_slices r.trees_per_slice r.records r.from_slice r.resume_booster
    elim rebuilt [ none ↦ err attribute_error | some b ↦ ok (weights_of b) ]
