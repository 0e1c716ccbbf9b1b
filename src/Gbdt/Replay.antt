-- ===== src/Gbdt/Replay.antt =====
-- A replay of engine/gbdt.py's rebuild from its `replay` payload, and a batch that is not ready.
use unlearn_shield.Prelude.{
  ℕ, ◌≡◌, refl, subst, inl, inr, not, List, Option, some, map, all, Bool-cases, Option-cases,
}
use unlearn_shield.Prelude.Result.{ok, map_result, Result-cases, ok_injective}
use unlearn_shield.Python.Bytes.{Bytes, Text, codes, mem}
use unlearn_shield.Smt.Tree.{remove}
use unlearn_shield.Smt.Cache.{tree_for_shard}
use unlearn_shield.Engine.Store.{Row, entry_of, pop_entries, load_shard}
use unlearn_shield.Engine.Retained.{ref_of}
use unlearn_shield.Engine.Purge.{batch_of}
use unlearn_shield.Engine.Rebuild.{Context, manifest_for}
use unlearn_shield.Gbdt.Boost.{Columns, Xgb, train_shard, rollback, retained_rows, rebuild_booster}
use unlearn_shield.Gbdt.Rebuild.{
  Store, Rebuilt, Planned, load_booster, plan_batch, weights_of, publish, rebuild_batch_by_ref,
  replay_digest,
}

module _ {F Booster : Type 0} (xgb : Xgb F Booster) (sha256 : Bytes → Bytes) (c : Context)
    (trees : ℕ) where
  -- A plan's booster is what continuing its rollback makes.
  IsContinued : Planned F Booster → Type 0
  IsContinued p =
      (start : Option Booster) × (rollback xgb trees p.booster p.purged.min_slice ≡ ok start)
      × (train_shard xgb c.num_slices trees p.purged.records p.purged.min_slice start
          ≡ ok p.rebuilt)

  rebuild_booster-Continued :
      (refs : List Text) (records : List (Row (Columns F))) (min_slice : ℕ) (b : Booster)
      (made : Option Booster × List (Row (Columns F)))
      → rebuild_booster xgb c.num_slices trees refs records min_slice b ≡ ok made
      → (start : Option Booster) × (rollback xgb trees b min_slice ≡ ok start)
        × (train_shard xgb c.num_slices trees made.1 min_slice start ≡ ok made.0)
  unfolding rebuild_booster
  rebuild_booster-Continued refs records min_slice b made e =
      elim (Bool-cases (all (λ (r : Row (Columns F)). not (mem r.subject_ref refs)) records)) [
        | inl t ↦ absurd (cc (rw t at e))
        | inr t ↦ elim (Result-cases (rollback xgb trees b min_slice)) [
          | inl (x, f) ↦ absurd (cc (rw (t, f) at e))
          | inr (start, f) ↦
              elim (Result-cases
                (train_shard xgb c.num_slices trees (retained_rows refs records) min_slice start)) [
                  | inl (x, g) ↦ absurd (cc (rw (t, f, g) at e))
                  | inr (o, g) ↦
                      let same : (o, retained_rows refs records) ≡ made = cc (rw (t, f, g) at e) in
                      (
                        start,
                        f,
                        subst (λ m. train_shard xgb c.num_slices trees m.1 min_slice start ≡ ok m.0)
                            same g,
                      )
                ]
        ]
      ]

  plan_batch-IsContinued :
      (store : Store F Booster) (refs : List Text) (p : Planned F Booster)
      → plan_batch xgb sha256 c trees store refs ≡ ok p
      → IsContinued p
  unfolding plan_batch IsContinued rebuild_booster
  plan_batch-IsContinued store refs p e =
      elim (Result-cases (map_result (entry_of store.routing) refs)) [
        | inl (x, f) ↦ absurd (cc (rw f at e))
        | inr (entries, f) ↦ elim (Result-cases (batch_of entries)) [
          | inl (x, g) ↦ absurd (cc (rw (f, g) at e))
          | inr (batch, g) ↦ elim (Result-cases (load_shard store.shards batch.0)) [
            | inl (x, h) ↦ absurd (cc (rw (f, g, h) at e))
            | inr (records, h) ↦
                elim (Result-cases
                  (tree_for_shard sha256 store.cache batch.0 (map ref_of records))) [
                    | inl (x, k) ↦ absurd (cc (rw (f, g, h, k) at e))
                    | inr (tree, k) ↦ elim (Result-cases (load_booster store.boosters batch.0)) [
                      | inl (x, l) ↦ absurd (cc (rw (f, g, h, k, l) at e))
                      | inr (booster, l) ↦
                          elim (Result-cases
                            (rebuild_booster xgb c.num_slices trees refs records batch.1 booster)) [
                              | inl (x, m) ↦ absurd (cc (rw (f, g, h, k, l, m) at e))
                              | inr (made, m) ↦
                                  let (start, rolled, again) =
                                    rebuild_booster-Continued refs records batch.1 booster made m in
                                  let same = ok_injective (rw (f, g, h, k, l, m) at e) in
                                  subst IsContinued same (start, rolled, again)
                            ]
                    ]
                  ]
          ]
        ]
      ]

  publish-replay :
      (p : Planned F Booster) (refs : List Text) (b : Booster) (store : Store F Booster)
      (r : Rebuilt F Booster)
      → IsContinued p
      → p.rebuilt ≡ some b
      → (publish xgb sha256 c trees p refs (weights_of xgb sha256 c trees b) store).1 ≡ ok r
      → replay_digest xgb sha256 c trees r ≡ ok r.result_weights
  unfolding publish replay_digest IsContinued
  publish-replay p refs b store r (start, rolled, again) e f =
      elim (Result-cases (remove sha256 p.purged.tree_before refs)) [
        | inl (x, g) ↦ absurd (cc (rw (publish, rolled, g) at f))
        | inr (tree, g) ↦
            elim (Result-cases (
              map_result
                (manifest_for sha256 c (codes "gbdt-shard") p.purged tree
                  (weights_of xgb sha256 c trees b))
                refs)) [
                  | inl (x, h) ↦ absurd (cc (rw (publish, rolled, g, h) at f))
                  | inr (ms, h) ↦ elim (Result-cases (pop_entries store.routing refs)) [
                    | inl (x, k) ↦ absurd (cc (rw (publish, rolled, g, h, k) at f))
                    | inr (routing, k) ↦
                        let same = ok_injective (rw (publish, rolled, g, h, k) at f) in
                        subst (λ r. replay_digest xgb sha256 c trees r ≡ ok r.result_weights) same
                          (rw (again, e) refl)
                  ]
                ]
      ]

  -- Whenever `rebuild_batch_by_ref` returns, a replay of its payload returns the digest of the
  -- weights that it reports.
  pub rebuild_batch-replay :
      (store : Store F Booster) (refs : List Text) (r : Rebuilt F Booster)
      → (rebuild_batch_by_ref xgb sha256 c trees store refs).1 ≡ ok r
      → replay_digest xgb sha256 c trees r ≡ ok r.result_weights
  unfolding rebuild_batch_by_ref
  rebuild_batch-replay store refs r e =
      elim (Result-cases (plan_batch xgb sha256 c trees store refs)) [
        | inl (x, f) ↦ absurd (cc (rw (rebuild_batch_by_ref, f) at e))
        | inr (p, f) ↦ elim (Option-cases p.rebuilt) [
          | inl g ↦ absurd (cc (rw (rebuild_batch_by_ref, f, g) at e))
          | inr (b, g) ↦
              publish-replay p refs b _ r (plan_batch-IsContinued store refs p f) g
                (rw (rebuild_batch_by_ref, f, g) at e)
        ]
      ]
