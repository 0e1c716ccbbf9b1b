-- ===== src/Gbdt/Build.antt =====
-- engine/gbdt.py: `build`, which trains the first booster of every shard, and the entry points on
-- the raw identifiers of subjects.
use unlearn_shield.Prelude.{
  ℕ, ◌<◌, ◌≡◌, refl, sym, subst, inl, inr, List, [], ◌∷◌, none, some, map, All, All-map, ltb, ◌==◌,
  ==_iff, if◌then◌else◌, Bool-cases, arith,
}
use unlearn_shield.Prelude.Result.{Result, ok, err, key_error, attribute_error, ◌>>=◌}
use unlearn_shield.Python.Bytes.{Bytes, Text, bytes_eq}
use unlearn_shield.Engine.Store.{Row, Routing, load_shard}
use unlearn_shield.Engine.Rebuild.{Manifest, Context}
use unlearn_shield.Gbdt.Boost.{Columns, Xgb, train_shard}
use unlearn_shield.Gbdt.Training.{IsTyped, train_shard-ok}
use unlearn_shield.Gbdt.Rebuild.{Store, Rebuilt, load_booster, save_booster, rebuild_batch_by_ref}

-- `sorted({...})` of numbers, one at a time
unfoldable pub insert_shard : ℕ → List ℕ → List ℕ
insert_shard x [] = x ∷ []
insert_shard x (y ∷ ys) =
    let rest = insert_shard x ys in
    if ltb x y then x ∷ y ∷ ys else (if x == y then y ∷ ys else y ∷ rest)

unfoldable pub sorted_shards : Routing → List ℕ
unfolding insert_shard
sorted_shards [] = []
sorted_shards ((ref, e) ∷ routing) = insert_shard e.shard (sorted_shards routing)

-- `manifests[ref]`
unfoldable pub manifest_of : List (Text × Manifest) → Text → Result Manifest
manifest_of [] ref = err key_error
manifest_of ((r, m) ∷ rest) ref = if bytes_eq r ref then ok m else manifest_of rest ref

-- The dict that `rebuild` returns.
pub record Summary : Type 0 where
  pub subject_ref : Text
  pub shard : ℕ
  pub resumed_from : Text
  pub rows_purged : ℕ
  pub result_weights : Text
  pub manifest : Manifest

-- The same call, with what it returns used further.
unfoldable pub then_return {ℓ} :
    {S : Type ℓ} {A B : Type 0} → S × Result A → (A → Result B) → S × Result B
then_return outcome f = (outcome.0, outcome.1 >>= f)

module _ {F Booster : Type 0} (xgb : Xgb F Booster) (sha256 : Bytes → Bytes) (c : Context)
    (trees_per_slice : ℕ) where
  -- The body of the loop of `build`: a booster that is None has no `save_model`.
  unfoldable pub build_shard : Store F Booster → ℕ → Result Booster
  build_shard store shard = do
    records ← load_shard store.shards shard
    trained ← train_shard xgb c.num_slices trees_per_slice records 0 none
    elim trained [ none ↦ err attribute_error | some b ↦ ok b ]

  -- The loop of `build`, which leaves the boosters it has saved also where it raises.
  unfoldable pub build_shards : Store F Booster → List ℕ → Store F Booster × Result {0} Unit
  unfolding build_shard
  build_shards store [] = (store, ok tt)
  build_shards store (shard ∷ shards) = elim (build_shard store shard) [
    | err e ↦ (store, err e)
    | ok b ↦ build_shards (record store { boosters = save_booster b shard store.boosters }) shards
  ]

  -- `build`, on the routing table that it is given
  unfoldable pub build : Store F Booster → Routing → Store F Booster × Result {0} Unit
  unfolding build_shards sorted_shards
  build store routing = build_shards store (sorted_shards routing)

  -- `rebuild_batch`; `subject_ref` is that of config/settings.py
  unfoldable pub rebuild_batch :
      (Text → Text) → Store F Booster → List Text → Store F Booster × Result (Rebuilt F Booster)
  rebuild_batch subject_ref store subject_ids =
      rebuild_batch_by_ref xgb sha256 c trees_per_slice store (map subject_ref subject_ids)

  -- `rebuild`
  unfoldable pub rebuild : (Text → Text) → Store F Booster → Text → Store F Booster × Result Summary
  unfolding rebuild_batch then_return manifest_of
  rebuild subject_ref store subject_id =
      then_return (rebuild_batch subject_ref store (subject_id ∷ [])) (λ result. do
        m ← manifest_of result.manifests (subject_ref subject_id)
        ok (record {
          subject_ref = subject_ref subject_id;
          shard = result.shard;
          resumed_from = result.resumed_from;
          rows_purged = result.rows_purged;
          result_weights = result.result_weights;
          manifest = m;
        }))

  -- The shard has a file, of rows with known transaction types.
  abbrev pub IsTrainable : List (ℕ × List (Row (Columns F))) → ℕ → Type 0
  IsTrainable shards shard =
      (records : List (Row (Columns F))) × (load_shard shards shard ≡ ok records)
      × All (IsTyped xgb) records

  -- The shard's booster is what training from nothing makes of its file.
  abbrev pub IsBuilt : Store F Booster → ℕ → Type 0
  IsBuilt store shard =
      (records : List (Row (Columns F))) × (b : Booster) × (load_shard store.shards shard
        ≡ ok records)
      × (load_booster store.boosters shard ≡ ok b)
      × (train_shard xgb c.num_slices trees_per_slice records 0 none ≡ ok (some b))

  -- What a build of the shards does to a store, and to shards that were built before.
  pub record Builds (store : Store F Booster) (shards before : List ℕ)
      (outcome : Store F Booster × Result {0} Unit) : Type 0 where
    pub returns : outcome.1 ≡ ok tt
    pub same_files : outcome.0.shards ≡ store.shards
    pub same_routing : outcome.0.routing ≡ store.routing
    pub built : All (IsBuilt outcome.0) shards
    pub still : All (IsBuilt outcome.0) before

  build_shard-ok :
      (store : Store F Booster) (shard : ℕ)
      → 0 < c.num_slices
      → IsTrainable store.shards shard
      → (b : Booster) × (build_shard store shard ≡ ok b)
        × IsBuilt (record store { boosters = save_booster b shard store.boosters }) shard
  unfolding build_shard load_booster save_booster
  build_shard-ok store shard lt (records, there, typed) =
      let (b, clean) = train_shard-ok xgb c.num_slices trees_per_slice records lt typed in
      (b, rw (there, clean) refl, (records, b, there, ground arith, clean))

  IsBuilt-save_booster :
      (store : Store F Booster) (shard other : ℕ) (b : Booster)
      → IsBuilt (record store { boosters = save_booster b shard store.boosters }) shard
      → IsBuilt store other
      → IsBuilt (record store { boosters = save_booster b shard store.boosters }) other
  unfolding load_booster save_booster
  IsBuilt-save_booster store shard other b new old = elim (Bool-cases (shard == other)) [
    | inl e ↦
        let same : shard ≡ other = (==_iff shard other).0 e in
        subst (IsBuilt (record store { boosters = (shard, b) ∷ store.boosters })) same new
    | inr e ↦ (old.0, old.1, old.2, rw e old.3, old.4)
  ]

  build_shards-Builds :
      (store : Store F Booster) (shards before : List ℕ)
      → 0 < c.num_slices
      → All (IsTrainable store.shards) shards
      → All (IsBuilt store) before
      → Builds store shards before (build_shards store shards)
  unfolding build_shards
  build_shards-Builds store [] before lt h old = record {
    returns = refl;
    same_files = refl;
    same_routing = refl;
    built = tt;
    still = old;
  }
  build_shards-Builds store (shard ∷ shards) before lt h old =
      let (b, made, new) = build_shard-ok store shard lt h.0 in
      let saved = record store { boosters = save_booster b shard store.boosters } in
      let rest =
        build_shards-Builds saved shards (shard ∷ before) lt h.1 (
          new,
          All-map _ _ before (λ other o. IsBuilt-save_booster store shard other b new o) old,
        ) in
      rw (build_shards, made)
        (record {
          returns = rest.returns;
          same_files = rest.same_files;
          same_routing = rest.same_routing;
          built = (rest.still.0, rest.built);
          still = rest.still.1;
        })

  All-insert_shard :
      (P : ℕ → Type 0) (x : ℕ) (ys : List ℕ) → P x → All P ys → All P (insert_shard x ys)
  unfolding insert_shard
  All-insert_shard P x [] p h = (p, tt)
  All-insert_shard P x (y ∷ ys) p h = elim (Bool-cases (ltb x y)) [
    | inl e ↦ rw e (p, h)
    | inr e ↦ elim (Bool-cases (x == y)) [
      | inl f ↦ rw (e, f) h
      | inr f ↦ rw (e, f) (h.0, All-insert_shard P x ys p h.1)
    ]
  ]

  insert_shard-All :
      (P : ℕ → Type 0) (x : ℕ) (ys : List ℕ) → All P (insert_shard x ys) → P x × All P ys
  unfolding insert_shard
  insert_shard-All P x [] h = h
  insert_shard-All P x (y ∷ ys) h = elim (Bool-cases (ltb x y)) [
    | inl e ↦ rw e at h
    | inr e ↦ elim (Bool-cases (x == y)) [
      | inl f ↦ let g = rw (e, f) at h in (subst P (sym ((==_iff x y).0 f)) g.0, g)
      | inr f ↦
          let g = rw (e, f) at h in let (p, rest) = insert_shard-All P x ys g.1 in (p, (g.0, rest))
    ]
  ]

  All-sorted_shards :
      (P : ℕ → Type 0) (routing : Routing)
      → All (λ e. P e.1.shard) routing
      → All P (sorted_shards routing)
  unfolding sorted_shards
  All-sorted_shards P [] h = tt
  All-sorted_shards P ((ref, e) ∷ routing) h =
      All-insert_shard P e.shard _ h.0 (All-sorted_shards P routing h.1)

  sorted_shards-All :
      (P : ℕ → Type 0) (routing : Routing)
      → All P (sorted_shards routing)
      → All (λ e. P e.1.shard) routing
  unfolding sorted_shards
  sorted_shards-All P [] h = tt
  sorted_shards-All P ((ref, e) ∷ routing) h =
      let (p, rest) = insert_shard-All P e.shard _ h in (p, sorted_shards-All P routing rest)

  -- If there is a slice, and every routed shard has a file of rows with known transaction types,
  -- `build` returns, leaves the shard files, and every routed shard then has the booster that
  -- training from nothing on its file makes.
  pub build-IsBuilt :
      (store : Store F Booster) (routing : Routing)
      → 0 < c.num_slices
      → All (λ e. IsTrainable store.shards e.1.shard) routing
      → ((build store routing).1 ≡ ok tt)
        × ((build store routing).0.shards ≡ store.shards)
        × All (λ e. IsBuilt (build store routing).0 e.1.shard) routing
  unfolding build
  build-IsBuilt store routing lt h =
      let all =
        build_shards-Builds store (sorted_shards routing) [] lt
          (All-sorted_shards (IsTrainable store.shards) routing h) tt in
      (
        all.returns,
        all.same_files,
        sorted_shards-All (IsBuilt (build store routing).0) routing all.built,
      )
