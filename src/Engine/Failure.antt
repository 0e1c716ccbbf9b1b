-- ===== src/Engine/Failure.antt =====
-- A batch that is not ready: what `rebuild_batch_by_ref` leaves behind when it raises.
use unlearn_shield.Prelude.{
  ℕ, ◌+◌, ◌≡◌, refl, ap, ◌∙◌, subst, inl, inr, not, List, [], ◌∷◌, map, keep, keep-keep, keep_none,
  All-keep_test, All-map, In, ◌==◌, Bool-cases, arith,
}
use unlearn_shield.Prelude.Result.{Exc, err, value_error, map_result, Result-cases}
use unlearn_shield.Python.Bytes.{Bytes, Text}
use unlearn_shield.Engine.Store.{Row, Store, entry_of, load_shard}
use unlearn_shield.Engine.Train.{Trainer}
use unlearn_shield.Engine.Purge.{has_ref, purge, purge_all, purge_batch, batch_of}
use unlearn_shield.Engine.Rebuild.{Context, rebuild_batch_by_ref}
use unlearn_shield.Smt.Cache.{tree_for_shard}

module _ {D : Type 0} where
  unfoldable pub IsGone : Text → List (Row D) → Type 0
  IsGone ref records = keep (has_ref ref) records ≡ []

  purge-IsGone : (ref : Text) (records : List (Row D)) → IsGone ref (purge records ref).0
  unfolding IsGone purge
  purge-IsGone ref records =
      keep_none (has_ref ref) _ (
        All-map _ _ _ (λ r e. ground (arith, e)) (All-keep_test (λ r. not (has_ref ref r)) records))

  IsGone-purge :
      (ref other : Text) (records : List (Row D))
      → IsGone ref records
      → IsGone ref (purge records other).0
  unfolding IsGone purge keep
  IsGone-purge ref other records gone =
      keep-keep _ _ records ∙ ap (keep (λ r. not (has_ref other r))) gone

  -- A reference with no row makes the purge raise.
  pub purge_all-IsGone :
      (records : List (Row D)) (n : ℕ) (ref : Text) (refs : List Text)
      → IsGone ref records
      → In ref refs
      → (purge_all records n refs ≡ err value_error)
  unfolding purge_all IsGone purge
  purge_all-IsGone records n ref [] gone m = absurd m
  purge_all-IsGone records n ref (a ∷ refs) gone (inl e) =
      rw (subst (λ x. IsGone x records) e gone) refl
  purge_all-IsGone records n ref (a ∷ refs) gone (inr m) =
      elim (Bool-cases ((purge records a).1 == 0)) [
        | inl t ↦ rw t refl
        | inr t ↦ rw t (
            purge_all-IsGone (purge records a).0 (n + (purge records a).1) ref refs
              (IsGone-purge ref a records gone) m)
      ]

  purge_all_repeated :
      (records : List (Row D)) (n : ℕ) (ref : Text) (refs : List Text)
      → In ref refs
      → purge_all records n (ref ∷ refs) ≡ err value_error
  unfolding purge_all
  purge_all_repeated records n ref refs m = elim (Bool-cases ((purge records ref).1 == 0)) [
    | inl t ↦ rw t refl
    | inr t ↦ rw t (purge_all-IsGone _ _ ref refs (purge-IsGone ref records) m)
  ]

module _ {D Model Saved Preproc : Type 0} (trainer : Trainer D Model Saved Preproc)
    (sha256 : Bytes → Bytes) (c : Context) (store : Store D Saved Preproc) where
  purge_batch_repeated :
      (ref : Text) (refs : List Text)
      → In ref refs
      → (e : Exc) × (purge_batch sha256 store (ref ∷ refs) ≡ err e)
  unfolding purge_batch
  purge_batch_repeated ref refs m =
      elim (Result-cases (map_result (entry_of store.routing) (ref ∷ refs))) [
        | inl (e, f) ↦ (e, rw f refl)
        | inr (entries, f) ↦ elim (Result-cases (batch_of entries)) [
          | inl (e, g) ↦ (e, rw (f, g) refl)
          | inr (batch, g) ↦ elim (Result-cases (load_shard store.shards batch.0)) [
            | inl (e, h) ↦ (e, rw (f, g, h) refl)
            | inr (records, h) ↦
                elim (Result-cases (
                  tree_for_shard sha256 store.cache batch.0
                    (map (λ (r : Row D). r.subject_ref) records))) [
                      | inl (e, k) ↦ (e, rw (f, g, h, k) refl)
                      | inr (tree, k) ↦ (
                        value_error,
                        rw (f, g, h, k, purge_all_repeated records 0 ref refs m) refl,
                      )
                    ]
          ]
        ]
      ]

  -- A batch that names its first subject again raises, and changes nothing.
  pub rebuild_batch_repeated :
      (ref : Text) (refs : List Text)
      → In ref refs
      → (e : Exc) × (rebuild_batch_by_ref trainer sha256 c store (ref ∷ refs) ≡ (store, err e))
  unfolding rebuild_batch_by_ref
  rebuild_batch_repeated ref refs m =
      let (e, f) = purge_batch_repeated ref refs m in (e, rw (f, rebuild_batch_by_ref) refl)
