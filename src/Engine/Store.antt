-- ===== src/Engine/Store.antt =====
-- What the engine keeps on disk and in memory: the shard files, the routing table, the checkpoints
-- and the fitted preprocessors of engine/train.py, and the tree cache of verify/smt.py. `D` are the
-- columns of a row other than its reference and its slice, `Saved` a state dict, `Preproc` a
-- preprocessor. A dict and a directory are association lists, the newest entry of a key first.
use unlearn_shield.Prelude.{ℕ, ◌&&◌, List, [], ◌∷◌, ◌==◌, if◌then◌else◌, keep, not}
use unlearn_shield.Prelude.Result.{Result, ok, err, key_error, file_error}
use unlearn_shield.Python.Bytes.{Text, bytes_eq}
use unlearn_shield.Smt.Cache.{Cache}

pub record Row (D : Type 0) : Type 0 where
  pub subject_ref : Text
  pub slice_idx : ℕ
  pub columns : D

-- An entry of `routing.json`.
pub record Entry : Type 0 where
  pub tenant_id : Text
  pub shard : ℕ
  pub min_slice_idx : ℕ
  pub record_count : ℕ

abbrev pub Routing : Type 0
Routing = List (Text × Entry)

pub record Store (D Saved Preproc : Type 0) : Type 0 where
  pub routing : Routing
  pub shards : List (ℕ × List (Row D))
  pub checkpoints : List ((ℕ × ℕ) × Saved)
  pub preprocs : List (ℕ × Preproc)
  pub cache : Cache

-- `routing[ref]`
unfoldable pub entry_of : Routing → Text → Result Entry
entry_of [] ref = err key_error
entry_of ((r, e) ∷ rest) ref = if bytes_eq r ref then ok e else entry_of rest ref

-- `routing.pop(ref)` for a key that is there
unfoldable pub pop_entry : Routing → Text → Routing
pop_entry routing ref = keep (λ e. not (bytes_eq e.0 ref)) routing

-- `routing.pop(ref)` for every reference in turn
unfoldable pub pop_entries : Routing → List Text → Result Routing
unfolding entry_of pop_entry
pop_entries routing [] = ok routing
pop_entries routing (ref ∷ refs) =
    let rest = pop_entries (pop_entry routing ref) refs in
    elim (entry_of routing ref) [ err e ↦ err e | ok _ ↦ rest ]

module _ {D : Type 0} where
  -- `load_shard`
  unfoldable pub load_shard : List (ℕ × List (Row D)) → ℕ → Result (List (Row D))
  load_shard [] shard = err file_error
  load_shard ((k, rows) ∷ rest) shard = if k == shard then ok rows else load_shard rest shard

  -- `save_shard`
  unfoldable pub save_shard : ℕ → List (Row D) → List (ℕ × List (Row D)) → List (ℕ × List (Row D))
  save_shard shard rows shards = (shard, rows) ∷ shards

-- `torch.load(checkpoint_path(shard, slice_idx))`
unfoldable pub load_checkpoint : {Saved : Type 0} → List ((ℕ × ℕ) × Saved) → ℕ → ℕ → Result Saved
load_checkpoint [] shard slice_idx = err file_error
load_checkpoint ((k, saved) ∷ rest) shard slice_idx =
    if (k.0 == shard) && (k.1 == slice_idx) then ok saved else load_checkpoint rest shard slice_idx
