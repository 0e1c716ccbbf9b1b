-- ===== src/Gbdt/Failure.antt =====
-- A batch of engine/gbdt.py that names a subject twice: the data is gone, but no manifest is made.
use unlearn_shield.Prelude.{
  ℕ, ◌<◌, ◌≡◌, refl, sym, subst, ◌∙◌, inl, inr, true, not, List, [], ◌∷◌, Option, some, map, all,
  keep, All, All-keep, In, Bool-cases, arith,
}
use unlearn_shield.Prelude.Result.{
  Exc, Result, ok, err, value_error, key_error, map_result, Result-cases,
}
use unlearn_shield.Python.Bytes.{Bytes, Text, codes, mem, bytes_eq, bytes_eq-eq}
use unlearn_shield.Smt.Hash.{IsDigest}
use unlearn_shield.Smt.Tree.{SparseMerkleTree, remove}
use unlearn_shield.Smt.Cache.{cache_tree, tree_for_shard}
use unlearn_shield.Engine.Store.{
  Row, Routing, entry_of, pop_entry, pop_entries, load_shard, save_shard,
}
use unlearn_shield.Engine.Retained.{ref_of}
use unlearn_shield.Engine.Batch.{IsRouted, batch-ok, entry_of-pop_entry}
use unlearn_shield.Engine.Rebuild.{Manifest, Context, manifest_for}
use unlearn_shield.Engine.Manifests.{manifests-Shows, remove-IsProven}
use unlearn_shield.Gbdt.Boost.{Columns, Xgb, rollback, retained_rows, rebuild_booster}
use unlearn_shield.Gbdt.Exact.{IsBoosting}
use unlearn_shield.Gbdt.Erasure.{IsShard, IsReady, plan_batch-ok, coherent-after}
use unlearn_shield.Gbdt.Rebuild.{
  Store, Rebuilt, Planned, load_booster, save_booster, plan_batch, weights_of, publish,
  rebuild_batch_by_ref,
}

entry_of_popped :
    (routing : Routing) (ref : Text) → entry_of (pop_entry routing ref) ref ≡ err key_error
unfolding entry_of pop_entry keep
entry_of_popped [] ref = refl
entry_of_popped ((k, entry) ∷ routing) ref = ground (arith, entry_of_popped routing ref)

-- A reference that is not routed stays so, and popping it raises.
pop_entry-gone :
    (routing : Routing) (ref other : Text)
    → entry_of routing ref ≡ err key_error
    → entry_of (pop_entry routing other) ref ≡ err key_error
pop_entry-gone routing ref other e = elim (Bool-cases (bytes_eq other ref)) [
  | inl t ↦
      subst (λ x. entry_of (pop_entry routing x) ref ≡ err key_error) (sym (bytes_eq-eq _ _ t))
        (entry_of_popped routing ref)
  | inr t ↦ entry_of-pop_entry routing other ref t ∙ e
]

pop_entries-gone :
    (routing : Routing) (ref : Text) (refs : List Text)
    → entry_of routing ref ≡ err key_error
    → In ref refs
    → (y : Exc) × (pop_entries routing refs ≡ err y)
unfolding pop_entries
pop_entries-gone routing ref [] e m = absurd m
pop_entries-gone routing ref (a ∷ refs) e m = elim (Result-cases (entry_of routing a)) [
  | inl (y, f) ↦ (y, rw (pop_entries, f) refl)
  | inr (entry, f) ↦ elim m [
    | inl same ↦ absurd (cc (e, f, same))
    | inr later ↦
        let (y, g) =
          pop_entries-gone (pop_entry routing a) ref refs (pop_entry-gone routing ref a e) later in
        (y, rw (pop_entries, f) g)
  ]
]

pop_entries_repeated :
    (routing : Routing) (ref : Text) (refs : List Text)
    → In ref refs
    → (y : Exc) × (pop_entries routing (ref ∷ refs) ≡ err y)
unfolding pop_entries
pop_entries_repeated routing ref refs m = elim (Result-cases (entry_of routing ref)) [
  | inl (y, f) ↦ (y, rw (pop_entries, f) refl)
  | inr (entry, f) ↦
      let (y, g) =
        pop_entries-gone (pop_entry routing ref) ref refs (entry_of_popped routing ref) m in
      (y, rw (pop_entries, f) g)
]

-- No row that is left is of one of the references.
all-retained_rows :
    {D : Type 0} (refs : List Text) (records : List (Row D))
    → all (λ (r : Row D). not (mem r.subject_ref refs)) (retained_rows refs records) ≡ true
unfolding all retained_rows keep
all-retained_rows refs [] = refl
all-retained_rows refs (r ∷ records) = ground (arith, all-retained_rows refs records)

module _ {F Booster : Type 0} (xgb : Xgb F Booster) (sha256 : Bytes → Bytes) (c : Context)
    (trees : ℕ) where
  -- What a batch that names a subject twice leaves behind: a call that raised, on a shard that is
  -- purged and trained all the same, with the routing table as it was, where the same batch raises
  -- again.
  pub record IsLost (store : Store F Booster) (shard : ℕ) (records : List (Row (Columns F)))
      (refs : List Text) (outcome : Store F Booster × Result (Rebuilt F Booster)) : Type 0 where
    pub raised : (e : Exc) × (outcome.1 ≡ err e)
    pub purged : IsShard xgb sha256 c trees outcome.0 shard (retained_rows refs records)
    pub routed : outcome.0.routing ≡ store.routing
    pub retried :
        (e : Exc) × (rebuild_batch_by_ref xgb sha256 c trees outcome.0 refs ≡ (outcome.0, err e))

  -- A call on a shard without rows of the subjects raises.
  plan_batch-absent :
      (store : Store F Booster) (shard : ℕ) (records : List (Row (Columns F))) (ref : Text)
      (rest : List Text)
      → All (IsRouted c.num_slices shard store.routing) (ref ∷ rest)
      → load_shard store.shards shard ≡ ok (retained_rows (ref ∷ rest) records)
      → (e : Exc) × (plan_batch xgb sha256 c trees store (ref ∷ rest) ≡ err e)
  unfolding plan_batch rebuild_booster
  plan_batch-absent store shard records ref rest routed there =
      let left = retained_rows (ref ∷ rest) records in
      let (es, m, found, batch, lt) = batch-ok c.num_slices shard store.routing ref rest routed in
      elim (Result-cases (tree_for_shard sha256 store.cache shard (map ref_of left))) [
        | inl (e, k) ↦ (e, rw (found, batch, there, k) refl)
        | inr (tree, k) ↦ elim (Result-cases (load_booster store.boosters shard)) [
          | inl (e, l) ↦ (e, rw (found, batch, there, k, l) refl)
          | inr (b, l) ↦ (
            value_error,
            rw (found, batch, there, k, l, rebuild_booster, all-retained_rows (ref ∷ rest) records)
                refl,
          )
        ]
      ]

  rebuild-absent :
      (store : Store F Booster) (shard : ℕ) (records : List (Row (Columns F))) (ref : Text)
      (rest : List Text)
      → All (IsRouted c.num_slices shard store.routing) (ref ∷ rest)
      → load_shard store.shards shard ≡ ok (retained_rows (ref ∷ rest) records)
      → (e : Exc) × (rebuild_batch_by_ref xgb sha256 c trees store (ref ∷ rest) ≡ (store, err e))
  unfolding rebuild_batch_by_ref
  rebuild-absent store shard records ref rest routed there =
      let (e, f) = plan_batch-absent store shard records ref rest routed there in
      (e, rw (rebuild_batch_by_ref, f) refl)

  -- The whole call, where the last of its steps fails.
  rebuild-stops :
      (store : Store F Booster) (refs : List Text) (p : Planned F Booster) (b : Booster)
      (start : Option Booster) (tree : SparseMerkleTree) (ms : List (Text × Manifest)) (e : Exc)
      → plan_batch xgb sha256 c trees store refs ≡ ok p
      → p.rebuilt ≡ some b
      → rollback xgb trees p.booster p.purged.min_slice ≡ ok start
      → remove sha256 p.purged.tree_before refs ≡ ok tree
      → map_result
          (manifest_for sha256 c
            (codes "gbdt-shard")
            p.purged
            tree
            (weights_of xgb sha256 c trees b))
          refs
        ≡ ok ms
      → pop_entries store.routing refs ≡ err e
      → rebuild_batch_by_ref xgb sha256 c trees store refs ≡ (
        record {
          routing = store.routing;
          shards = save_shard p.purged.shard p.purged.records store.shards;
          boosters = save_booster b p.purged.shard store.boosters;
          cache = cache_tree p.purged.shard tree store.cache;
        },
        err e,
      )
  unfolding rebuild_batch_by_ref publish
  rebuild-stops store refs p b start tree ms e f g h k l m =
      rw (f, rebuild_batch_by_ref, g, publish, h, k, l, m) refl

  -- A batch that names its first subject again, and is ready otherwise, loses its manifests, if
  -- digests are 32 octets and a slice has some trees: the call raises, but the shard is purged and
  -- trained without the subjects; their routing entries stay, and the same batch raises again.
  pub rebuild_batch_by_ref-IsLost :
      (laws : IsBoosting xgb) (some_trees : 0 < trees) (digest : IsDigest sha256)
      (store : Store F Booster) (shard : ℕ) (records : List (Row (Columns F))) (ref : Text)
      (rest : List Text)
      → IsShard xgb sha256 c trees store shard records
      → IsReady xgb sha256 c trees store shard records (ref ∷ rest)
      → In ref rest
      → IsLost store shard records
          (ref ∷ rest)
          (rebuild_batch_by_ref xgb sha256 c trees store (ref ∷ rest))
  unfolding retained_rows
  rebuild_batch_by_ref-IsLost laws some_trees digest store shard records ref rest sound ready
        again =
      let refs = ref ∷ rest in
      let (m, tree, start, b, w, keys, rolled, clean, planned) =
        plan_batch-ok xgb sha256 c trees laws some_trees store shard records ref rest sound ready in
      let (tree', removed, w', rooted, proven) =
        remove-IsProven sha256 digest tree (map ref_of records) refs w keys sound.references
          ready.held in
      let (ms, made, same, shown) =
        manifests-Shows sha256 c (codes "gbdt-shard") _ tree' (weights_of xgb sha256 c trees b) refs
          proven ready.signer in
      let (e, popped) = pop_entries_repeated store.routing ref rest again in
      let after =
        coherent-after xgb sha256 c trees laws some_trees store shard records refs b tree'
          store.routing sound w' clean (All-keep _ _ records sound.sliced) in
      rw (rebuild-stops store refs _ b start tree' ms e planned refl rolled removed made popped)
        (record {
          raised = (e, refl);
          purged = after;
          routed = refl;
          retried = rebuild-absent _ shard records ref rest ready.routed after.there;
        })
