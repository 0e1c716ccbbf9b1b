-- ===== src/Engine/Purge.antt =====
-- engine/rebuild.py: what `rebuild_batch_by_ref` does before it writes anything.
use unlearn_shield.Prelude.{
  ℕ, ◌+◌, List, [], ◌∷◌, Bool, map, keep, not, all, length, ltb, ◌==◌, if◌then◌else◌,
}
use unlearn_shield.Prelude.Result.{Result, ok, err, value_error, ◌>>=◌, map_result}
use unlearn_shield.Python.Bytes.{Bytes, Text, bytes_eq}
use unlearn_shield.Smt.Tree.{SparseMerkleTree}
use unlearn_shield.Smt.Cache.{tree_for_shard}
use unlearn_shield.Engine.Store.{Row, Entry, Store, entry_of, load_shard}

-- `min(e["min_slice_idx"] for e in entries)`
unfoldable pub min_slice_of : Entry → List Entry → ℕ
min_slice_of e [] = e.min_slice_idx
min_slice_of e (f ∷ es) =
    let rest = min_slice_of f es in if ltb rest e.min_slice_idx then rest else e.min_slice_idx

-- The shard of the batch and its rollback point.
unfoldable pub batch_of : List Entry → Result (ℕ × ℕ)
unfolding min_slice_of
batch_of [] = err value_error
batch_of (e ∷ es) =
    if all (λ (f : Entry). f.shard == e.shard) es
    then ok (e.shard, min_slice_of e es)
    else err value_error

unfoldable pub has_ref : {D : Type 0} → Text → Row D → Bool
has_ref ref r = bytes_eq r.subject_ref ref

module _ {D : Type 0} where
  -- `purge`: the rows retained, and how many were dropped.
  unfoldable pub purge : List (Row D) → Text → List (Row D) × ℕ
  purge records ref = (keep (λ r. not (has_ref ref r)) records, length (keep (has_ref ref) records))

  -- The loop over the references; one that drops no row raises.
  unfoldable pub purge_all : List (Row D) → ℕ → List Text → Result (List (Row D) × ℕ)
  unfolding purge
  purge_all records dropped_total [] = ok (records, dropped_total)
  purge_all records dropped_total (ref ∷ refs) =
      let (retained, dropped) = purge records ref in
      let rest = purge_all retained (dropped_total + dropped) refs in
      if dropped == 0 then err value_error else rest

-- What the first half of the call finds out.
pub record Purged (D : Type 0) : Type 0 where
  pub shard : ℕ
  pub min_slice : ℕ
  pub tree_before : SparseMerkleTree
  pub records : List (Row D)
  pub dropped_total : ℕ

-- `rebuild_batch_by_ref` up to `save_shard`.
unfoldable pub purge_batch :
    {D Saved Preproc : Type 0}
    → (Bytes → Bytes)
    → Store D Saved Preproc
    → List Text
    → Result (Purged D)
purge_batch sha256 store refs = do
  entries ← map_result (entry_of store.routing) refs
  batch ← batch_of entries
  records ← load_shard store.shards batch.0
  tree_before ←
      tree_for_shard sha256 store.cache batch.0 (map (λ (r : Row _). r.subject_ref) records)
  purged ← purge_all records 0 refs
  ok (record {
    shard = batch.0;
    min_slice = batch.1;
    tree_before = tree_before;
    records = purged.0;
    dropped_total = purged.1;
  })
