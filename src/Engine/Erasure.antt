-- ===== src/Engine/Erasure.antt =====
-- A batch that is ready is erased: the whole of engine/rebuild.py's `rebuild_batch_by_ref`.
use unlearn_shield.Prelude.{
  ℕ, ◌-◌, ◌<◌, ◌≡◌, refl, ap, subst, ◌∙◌, List, ◌∷◌, Option, map, length, All, All-map, In, arith,
}
use unlearn_shield.Prelude.Result.{Result, ok, map_result}
use unlearn_shield.Python.Bytes.{Bytes, Text, codes}
use unlearn_shield.Smt.Hash.{IsDigest}
use unlearn_shield.Smt.Tree.{SparseMerkleTree, remove, root}
use unlearn_shield.Smt.Keys.{IsRef, key_set}
use unlearn_shield.Smt.Trees.{IsTree, tree_of}
use unlearn_shield.Smt.Cache.{
  IsCache, IsFaithful, tree_for_shard-keys, cache_tree, cache_tree-IsCache,
}
use unlearn_shield.Engine.Store.{Row, Store, Routing, load_shard, save_shard, pop_entries}
use unlearn_shield.Engine.Train.{Trainer, Trained}
use unlearn_shield.Engine.Purge.{Purged, purge_batch}
use unlearn_shield.Engine.Retained.{Distinct, ref_of, retained, erased, purge_all-In}
use unlearn_shield.Engine.Batch.{IsRouted, batch-ok, without_entries, pop_entries-ok}
use unlearn_shield.Engine.Retraining.{IsResumable, IsFittable, retrain-ok}
use unlearn_shield.Engine.Rebuild.{
  Manifest, Context, Rebuilt, manifest_for, retrain, publish, digest_at, rebuild_batch_by_ref,
  resumed_from_of, range_from,
}
use unlearn_shield.Engine.Manifests.{
  IsSigner, IsCanonical, Shows, manifests-Shows, remaining-retained, remove-IsProven,
}

module _ {D Model Saved Preproc : Type 0} (trainer : Trainer D Model Saved Preproc)
    (sha256 : Bytes → Bytes) (c : Context) where
  -- The batch is of distinct subjects that the shard holds and the routing table sends there, and
  -- nothing outside the program fails: the checkpoints load and signing does not raise.
  pub record IsReady (store : Store D Saved Preproc) (shard : ℕ) (records : List (Row D))
      (refs : List Text) : Type 0 where
    pub there : load_shard store.shards shard ≡ ok records
    pub routed : All (IsRouted c.num_slices shard store.routing) refs
    pub held : All (λ ref. In ref (map ref_of records)) refs
    pub distinct : Distinct refs
    pub references : All IsRef (map ref_of records)
    pub canonical : IsCanonical (map ref_of records)
    pub caches : IsCache sha256 store.cache
    pub faithful : IsFaithful sha256 store.cache shard (map ref_of records)
    pub resumable : IsResumable trainer c.num_slices c.seed shard store
    pub signer : IsSigner c.sign_manifest

  module _ (store : Store D Saved Preproc) (shard : ℕ) (records : List (Row D)) (ref : Text)
      (rest : List Text) (ready : IsReady store shard records (ref ∷ rest)) where
    -- What the first half finds out.
    pub purge_batch-ok :
        (min_slice : ℕ) × (tree : SparseMerkleTree) × (min_slice < c.num_slices)
        × IsTree sha256 tree
        × (tree.keys ≡ key_set (map ref_of records))
        × (purge_batch sha256 store (ref ∷ rest)
            ≡ ok (record {
              shard = shard;
              min_slice = min_slice;
              tree_before = tree;
              records = retained (ref ∷ rest) records;
              dropped_total = length (erased (ref ∷ rest) records);
            }))
    unfolding purge_batch
    purge_batch-ok =
        let (es, min_slice, found, batch, lt) =
          batch-ok c.num_slices shard store.routing ref rest ready.routed in
        let (tree, served, w, keys) =
          tree_for_shard-keys sha256 store.cache shard (map ref_of records) ready.caches
            ready.references ready.faithful in
        (
          min_slice,
          tree,
          lt,
          w,
          keys,
          rw
              (
                found,
                batch,
                ready.there,
                served,
                purge_all-In records (ref ∷ rest) ready.held ready.distinct,
              )
              refl,
        )

  -- What an erasure leaves behind and returns.
  pub record IsErased (store : Store D Saved Preproc) (shard : ℕ) (records : List (Row D))
      (refs : List Text) (outcome : Store D Saved Preproc × Result (Rebuilt D Saved)) : Type 0 where
    pub rebuilt : Rebuilt D Saved
    pub returns : outcome.1 ≡ ok rebuilt
    pub purged : load_shard outcome.0.shards shard ≡ ok (retained refs records)
    pub unrouted : outcome.0.routing ≡ without_entries refs store.routing
    pub counted : rebuilt.rows_purged ≡ length (erased refs records)
    pub answered : map (λ m. m.0) rebuilt.manifests ≡ refs
    pub shown :
        All
          (Shows sha256 (root (tree_of sha256 (map ref_of (retained refs records)))))
          rebuilt.manifests
    pub caches : IsCache sha256 outcome.0.cache

  -- The second half, where none of its steps fails.
  publish-ok :
      (p : Purged D) (refs : List Text) (state : Option Saved) (weights : Text)
      (store : Store D Saved Preproc) (tree : SparseMerkleTree) (ms : List (Text × Manifest))
      (routing : Routing)
      → remove sha256 p.tree_before refs ≡ ok tree
      → map_result (manifest_for sha256 c (codes "shard") p tree weights) refs ≡ ok ms
      → pop_entries store.routing refs ≡ ok routing
      → publish trainer sha256 c p refs state weights store ≡ (
        record store { routing = routing; cache = cache_tree p.shard tree store.cache },
        ok (record {
          shard = p.shard;
          resumed_from = resumed_from_of p.min_slice;
          rows_purged = p.dropped_total;
          slices_retrained = range_from p.min_slice (c.num_slices - p.min_slice);
          result_weights = weights;
          manifests = ms;
          records = p.records;
          from_slice = p.min_slice;
          resume_state = state;
          seed = c.seed;
        }),
      )
  unfolding publish
  publish-ok p refs state weights store tree ms routing e f g = rw (e, publish, f, g) refl

  rebuild-publish :
      (store : Store D Saved Preproc) (refs : List Text) (p : Purged D) (state : Option Saved)
      (trained : Trained Saved Preproc) (weights : Text)
      → purge_batch sha256 store refs ≡ ok p
      → retrain trainer sha256 c p
          (record store { shards = save_shard p.shard p.records store.shards })
        ≡ ok (state, trained)
      → digest_at trained.digests (c.num_slices - 1) ≡ ok weights
      → rebuild_batch_by_ref trainer sha256 c store refs
        ≡ publish trainer sha256 c p refs state weights (record store {
          shards = save_shard p.shard p.records store.shards;
          checkpoints = trained.checkpoints;
          preprocs = trained.preprocs;
        })
  unfolding rebuild_batch_by_ref
  rebuild-publish store refs p state trained weights e f g = rw (e, rebuild_batch_by_ref, f, g) refl

  pub saved_shard :
      (shard : ℕ) (rows : List (Row D)) (shards : List (ℕ × List (Row D)))
      → load_shard (save_shard shard rows shards) shard ≡ ok rows
  unfolding load_shard save_shard
  saved_shard shard rows shards = ground arith

  -- A batch that is ready and leaves a row in slice 0 is erased, if digests are 32 octets. The
  -- call returns; the shard file then
  -- holds the rows of the other subjects, in their order, and the routing table their entries; the
  -- purged rows are counted; and every subject of the batch has a manifest, whose absence proof
  -- verifies against the root of the tree over the references that the shard file then holds.
  pub rebuild_batch-IsErased :
      (digest : IsDigest sha256) (store : Store D Saved Preproc) (shard : ℕ)
      (records : List (Row D)) (ref : Text) (rest : List Text)
      → IsReady store shard records (ref ∷ rest)
      → IsFittable trainer (retained (ref ∷ rest) records)
      → IsErased store shard records
          (ref ∷ rest)
          (rebuild_batch_by_ref trainer sha256 c store (ref ∷ rest))
  rebuild_batch-IsErased digest store shard records ref rest ready fittable =
      let refs = ref ∷ rest in
      let (min_slice, tree, lt, w, keys, found) =
        purge_batch-ok store shard records ref rest ready in
      let p : Purged D = record {
        shard = shard;
        min_slice = min_slice;
        tree_before = tree;
        records = retained refs records;
        dropped_total = length (erased refs records);
      } in
      let purged = record store { shards = save_shard shard p.records store.shards } in
      let (state, trained, weights, retrained, last) =
        retrain-ok trainer sha256 c p purged lt fittable ready.resumable in
      let (tree', removed, w', rooted, proven) =
        remove-IsProven sha256 digest tree (map ref_of records) refs w keys ready.references
          ready.held in
      let (ms, made, same, shown) =
        manifests-Shows sha256 c (codes "shard") p tree' weights refs proven ready.signer in
      let popped =
        pop_entries-ok store.routing refs (All-map _ _ refs (λ r q. (q.0, q.1)) ready.routed)
          ready.distinct in
      let root_eq =
        rooted
        ∙ ap (λ held. root (tree_of sha256 held))
            (remaining-retained refs records ready.canonical ready.held) in
      let outcome =
        rebuild-publish store refs p state trained weights found retrained last
        ∙ publish-ok p refs state weights _ tree' ms (without_entries refs store.routing) removed
            made popped in
      rw outcome (record {
        rebuilt = _;
        returns = refl;
        purged = saved_shard shard (retained refs records) store.shards;
        unrouted = refl;
        counted = refl;
        answered = same;
        shown = subst (λ r. All (Shows sha256 r) ms) root_eq shown;
        caches = (cache_tree-IsCache sha256 shard tree' store.cache w' ready.caches).0;
      })
