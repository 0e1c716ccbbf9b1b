-- ===== src/Gbdt/Erasure.antt =====
-- A batch that is ready is erased by engine/gbdt.py's `rebuild_batch_by_ref`, and the booster that
-- it leaves is a clean retrain.
use unlearn_shield.Prelude.{
  ℕ, ◌-◌, ◌≤◌, ◌<◌, ◌≡◌, refl, sym, ap, subst, ◌∙◌, inl, not, List, ◌∷◌, Option, none, some, map,
  keep-In, length, All, All-map, All-In, All-keep, All-keep_test, All-zip, In, arith,
}
use unlearn_shield.Prelude.Result.{Result, ok, map_result}
use unlearn_shield.Python.Bytes.{Bytes, Text, codes, mem, mem-In}
use unlearn_shield.Smt.Hash.{IsDigest}
use unlearn_shield.Smt.Tree.{SparseMerkleTree, remove, root}
use unlearn_shield.Smt.Keys.{IsRef, key_set}
use unlearn_shield.Smt.Trees.{IsTree, tree_of}
use unlearn_shield.Smt.Cache.{
  IsCache, IsFaithful, tree_for_shard-keys, cache_tree, cache_tree-IsCache,
}
use unlearn_shield.Engine.Store.{Row, Entry, Routing, entry_of, load_shard, save_shard, pop_entries}
use unlearn_shield.Engine.Retained.{Distinct, ref_of, erased}
use unlearn_shield.Engine.Batch.{IsRouted, batch-ok, without_entries, pop_entries-ok}
use unlearn_shield.Engine.Rebuild.{Manifest, Context, manifest_for, resumed_from_of, range_from}
use unlearn_shield.Engine.Manifests.{
  IsSigner, IsCanonical, Shows, manifests-Shows, remaining-retained, remove-IsProven,
}
use unlearn_shield.Gbdt.Boost.{Columns, Xgb, train_shard, rollback, retained_rows}
use unlearn_shield.Gbdt.Training.{IsTyped, train_shard-ok}
use unlearn_shield.Gbdt.Exact.{IsBoosting, IsFrom, rollback-train_shard, rebuild_booster_exact}
use unlearn_shield.Gbdt.Batch.{
  batch_of-le, entries-le, entry_of-without_entries, all_of_held, length-retained_rows,
  map-retained_rows,
}
use unlearn_shield.Gbdt.Rebuild.{
  Store, Rebuilt, Planned, load_booster, save_booster, plan_batch, weights_of, publish,
  rebuild_batch_by_ref,
}

retained-typed :
    {F : Type 0} (refs : List Text) (records : List (Row (Columns F)))
    → All (λ (r : Row (Columns F)). r.columns.type_idx < 5) records
    → All (λ (r : Row (Columns F)). r.columns.type_idx < 5) (retained_rows refs records)
unfolding retained_rows
retained-typed refs records h = All-keep _ _ records h

held-before :
    {D : Type 0} (refs : List Text) (records : List (Row D)) (a : Text)
    → In a (map ref_of (retained_rows refs records))
    → In a (map ref_of records)
held-before refs records a m = keep-In _ a _ (rw (map-retained_rows refs records) at m)

module _ {F Booster : Type 0} (xgb : Xgb F Booster) (sha256 : Bytes → Bytes) (c : Context)
    (trees : ℕ) where
  -- The state of a shard holds together: its booster is what training from nothing makes of its
  -- rows, its references are canonical, and no row of a subject is before the subject's slice.
  pub record IsShard (store : Store F Booster) (shard : ℕ) (records : List (Row (Columns F)))
      : Type 0 where
    pub there : load_shard store.shards shard ≡ ok records
    pub booster : Booster
    pub loaded : load_booster store.boosters shard ≡ ok booster
    pub trained : train_shard xgb c.num_slices trees records 0 none ≡ ok (some booster)
    pub typed : All (IsTyped xgb) records
    pub sliced :
        All
          (λ (r : Row (Columns F)).
            (e : Entry)
            → entry_of store.routing r.subject_ref ≡ ok e
            → e.min_slice_idx ≤ r.slice_idx)
          records
    pub references : All IsRef (map ref_of records)
    pub canonical : IsCanonical (map ref_of records)
    pub caches : IsCache sha256 store.cache

  -- The batch is of subjects that the shard holds and the routing table sends there.
  pub record IsReady (store : Store F Booster) (shard : ℕ) (records : List (Row (Columns F)))
      (refs : List Text) : Type 0 where
    pub routed : All (IsRouted c.num_slices shard store.routing) refs
    pub held : All (λ ref. In ref (map ref_of records)) refs
    pub faithful : IsFaithful sha256 store.cache shard (map ref_of records)
    pub signer : IsSigner c.sign_manifest

  -- What an erasure leaves behind and returns.
  pub record IsErased (store : Store F Booster) (shard : ℕ) (records : List (Row (Columns F)))
      (refs : List Text) (outcome : Store F Booster × Result (Rebuilt F Booster)) : Type 0 where
    pub rebuilt : Rebuilt F Booster
    pub returns : outcome.1 ≡ ok rebuilt
    pub coherent : IsShard outcome.0 shard (retained_rows refs records)
    pub unrouted : outcome.0.routing ≡ without_entries refs store.routing
    pub counted : rebuilt.rows_purged ≡ length (erased refs records)
    pub answered : map (λ m. m.0) rebuilt.manifests ≡ refs
    pub shown :
        All
          (Shows sha256 (root (tree_of sha256 (map ref_of (retained_rows refs records)))))
          rebuilt.manifests

  module _ (laws : IsBoosting xgb) (some_trees : 0 < trees) where
    -- What the first half works out.
    pub plan_batch-ok :
        (store : Store F Booster) (shard : ℕ) (records : List (Row (Columns F))) (ref : Text)
        (rest : List Text) (sound : IsShard store shard records)
        → IsReady store shard records (ref ∷ rest)
        → (min_slice : ℕ) × (tree : SparseMerkleTree) × (start : Option Booster) × (b : Booster)
          × IsTree sha256 tree
          × (tree.keys ≡ key_set (map ref_of records))
          × (rollback xgb trees sound.booster min_slice ≡ ok start)
          × (train_shard xgb c.num_slices trees (retained_rows (ref ∷ rest) records) 0 none
              ≡ ok (some b))
          × (plan_batch xgb sha256 c trees store (ref ∷ rest)
              ≡ ok (record {
                purged = record {
                  shard = shard;
                  min_slice = min_slice;
                  tree_before = tree;
                  records = retained_rows (ref ∷ rest) records;
                  dropped_total = length records - length (retained_rows (ref ∷ rest) records);
                };
                booster = sound.booster;
                rebuilt = some b;
              }))
    unfolding plan_batch
    plan_batch-ok store shard records ref rest sound ready =
        let refs = ref ∷ rest in
        let (es, m, found, batch, lt) =
          batch-ok c.num_slices shard store.routing ref rest ready.routed in
        let (tree, served, w, keys) =
          tree_for_shard-keys sha256 store.cache shard (map ref_of records) sound.caches
            sound.references ready.faithful in
        let from : IsFrom xgb m refs records =
          All-map _ _ records
            (λ r sliced held.
              let routed =
                All-In (IsRouted c.num_slices shard store.routing) r.subject_ref refs ready.routed
                  (mem-In _ refs held) in
              omega (
                arith,
                sliced routed.0 routed.1,
                entries-le store.routing refs es m r.subject_ref routed.0 found
                    (batch_of-le es shard m batch) (mem-In _ refs held) routed.1,
              ))
            sound.sliced in
        let (start, rolled, _) =
          rollback-train_shard xgb laws c.num_slices trees some_trees refs records m sound.booster
            lt from sound.trained in
        let (b, clean) =
          train_shard-ok xgb c.num_slices trees (retained_rows refs records) (omega arith)
            (retained-typed refs records sound.typed) in
        let made =
          rebuild_booster_exact xgb laws c.num_slices trees some_trees refs records m sound.booster
            lt from sound.trained (all_of_held refs records ref ready.held.0 (inl refl)) in
        (
          m,
          tree,
          start,
          b,
          w,
          keys,
          rolled,
          clean,
          rw (found, batch, sound.there, served, sound.loaded, made, clean) refl,
        )

    -- The whole call, where none of its steps fails.
    rebuild-steps :
        (store : Store F Booster) (refs : List Text) (p : Planned F Booster) (b : Booster)
        (start : Option Booster) (tree : SparseMerkleTree) (ms : List (Text × Manifest))
        (routing : Routing)
        → plan_batch xgb sha256 c trees store refs ≡ ok p
        → p.rebuilt ≡ some b
        → rollback xgb trees p.booster p.purged.min_slice ≡ ok start
        → remove sha256 p.purged.tree_before refs ≡ ok tree
        → map_result
            (manifest_for sha256 c
              (codes "gbdt-shard")
              p.purged
              tree
              (weights_of xgb sha256 c trees b))
            refs
          ≡ ok ms
        → pop_entries store.routing refs ≡ ok routing
        → rebuild_batch_by_ref xgb sha256 c trees store refs ≡ (
          record {
            routing = routing;
            shards = save_shard p.purged.shard p.purged.records store.shards;
            boosters = save_booster b p.purged.shard store.boosters;
            cache = cache_tree p.purged.shard tree store.cache;
          },
          ok (record {
            shard = p.purged.shard;
            resumed_from = resumed_from_of p.purged.min_slice;
            rows_purged = p.purged.dropped_total;
            slices_retrained = range_from p.purged.min_slice (c.num_slices - p.purged.min_slice);
            result_weights = weights_of xgb sha256 c trees b;
            manifests = ms;
            records = p.purged.records;
            from_slice = p.purged.min_slice;
            resume_booster = start;
            trees_per_slice = trees;
          }),
        )
    unfolding rebuild_batch_by_ref publish
    rebuild-steps store refs p b start tree ms routing e f g h k l =
        rw (e, rebuild_batch_by_ref, f, publish, g, h, k, l) refl

    IsLater : Routing → Row (Columns F) → Type 0
    IsLater routing r =
        (e : Entry) → entry_of routing r.subject_ref ≡ ok e → e.min_slice_idx ≤ r.slice_idx

    IsLater-without_entries :
        (routing : Routing) (refs : List Text) (records : List (Row (Columns F)))
        → All (IsLater routing) records
        → All (IsLater (without_entries refs routing)) (retained_rows refs records)
    unfolding IsLater retained_rows
    IsLater-without_entries routing refs records sliced =
        All-map _ _ _
          (λ r p e found. p.0 e (
            sym (entry_of-without_entries routing refs r.subject_ref (ground (arith, p.1)))
            ∙ found))
          (All-zip _ _ _ (All-keep _ _ records sliced)
            (All-keep_test (λ (r : Row (Columns F)). not (mem r.subject_ref refs)) records))

    -- The state with the shard purged and its booster saved is coherent again.
    pub coherent-after :
        (store : Store F Booster) (shard : ℕ) (records : List (Row (Columns F))) (refs : List Text)
        (b : Booster) (tree : SparseMerkleTree) (routing : Routing)
        → IsShard store shard records
        → IsTree sha256 tree
        → train_shard xgb c.num_slices trees (retained_rows refs records) 0 none ≡ ok (some b)
        → All
            (λ (r : Row (Columns F)).
              (e : Entry) → entry_of routing r.subject_ref ≡ ok e → e.min_slice_idx ≤ r.slice_idx)
            (retained_rows refs records)
        → IsShard
            (record {
              routing = routing;
              shards = save_shard shard (retained_rows refs records) store.shards;
              boosters = save_booster b shard store.boosters;
              cache = cache_tree shard tree store.cache;
            })
            shard
            (retained_rows refs records)
    unfolding load_shard save_shard load_booster save_booster retained_rows
    coherent-after store shard records refs b tree routing sound w clean sliced = record {
      there = ground arith;
      booster = b;
      loaded = ground arith;
      trained = clean;
      typed = All-keep _ _ records sound.typed;
      sliced = sliced;
      references = rw (map-retained_rows refs records) (All-keep IsRef _ _ sound.references);
      canonical = λ x y m n same.
          sound.canonical x y (held-before refs records x m) (held-before refs records y n) same;
      caches = (cache_tree-IsCache sha256 shard tree store.cache w sound.caches).0;
    }

    -- A batch of distinct subjects that is ready is erased, if digests are 32 octets and
    -- a slice has some trees. The call returns; the shard is
    -- coherent again with the rows of the other subjects, so the booster that is saved is the one
    -- that training from nothing on those rows makes; the routing table holds the other entries; the
    -- purged rows are counted; and every subject of the batch has a manifest, whose absence proof
    -- verifies against the root of the tree over the references that the shard file then holds.
    pub rebuild_batch_by_ref-IsErased :
        (digest : IsDigest sha256) (store : Store F Booster) (shard : ℕ)
        (records : List (Row (Columns F))) (ref : Text) (rest : List Text)
        → IsShard store shard records
        → IsReady store shard records (ref ∷ rest)
        → Distinct (ref ∷ rest)
        → IsErased store shard records
            (ref ∷ rest)
            (rebuild_batch_by_ref xgb sha256 c trees store (ref ∷ rest))
    unfolding retained_rows IsLater
    rebuild_batch_by_ref-IsErased digest store shard records ref rest sound ready distinct =
        let refs = ref ∷ rest in
        let (m, tree, start, b, w, keys, rolled, clean, planned) =
          plan_batch-ok store shard records ref rest sound ready in
        let (tree', removed, w', rooted, proven) =
          remove-IsProven sha256 digest tree (map ref_of records) refs w keys sound.references
            ready.held in
        let (ms, made, same, shown) =
          manifests-Shows sha256 c (codes "gbdt-shard") _ tree' (weights_of xgb sha256 c trees b)
            refs proven ready.signer in
        let popped =
          pop_entries-ok store.routing refs (All-map _ _ refs (λ r q. (q.0, q.1)) ready.routed)
            distinct in
        let root_eq =
          rooted
          ∙ ap (λ held. root (tree_of sha256 held))
              (remaining-retained refs records sound.canonical ready.held) in
        rw
          (rebuild-steps store refs _ b start tree' ms (without_entries refs store.routing) planned
            refl rolled removed made popped)
          (record {
            rebuilt = _;
            returns = refl;
            coherent =
                coherent-after store shard records refs b tree' (without_entries refs store.routing)
                  sound w' clean (IsLater-without_entries store.routing refs records sound.sliced);
            unrouted = refl;
            counted = length-retained_rows refs records;
            answered = same;
            shown = subst (λ r. All (Shows sha256 r) ms) root_eq shown;
          })
