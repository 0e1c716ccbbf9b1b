-- ===== src/Worker/Active.antt =====
-- engine/active.py: `promote_artifact`, and what the two engines share as the worker meets them.
-- Paths are texts; the directory of the content-addressed files is left out of them.
use unlearn_shield.Prelude.{
  ℕ, ◌≡◌, refl, sym, ap, inl, inr, ◌⊎◌, subst, List, [], ◌∷◌, ◌++◌, Option, none, some, ltb,
  if◌then◌else◌, Bool-cases, Option-cases,
}
use unlearn_shield.Prelude.Result.{Result, ok, err, value_error, ◌>>=◌, Result-cases, ok_injective}
use unlearn_shield.Python.Bytes.{Text, bytes_eq, bytes_eq-eq}
use unlearn_shield.Worker.Process.{Outcome}

-- The files of the content-addressed directory, and those of the engine.
pub record Files (Store Model : Type 0) : Type 0 where
  pub store : Store
  pub cas : List (Text × Model)

unfoldable pub file_at : {Model : Type 0} → List (Text × Model) → Text → Option Model
file_at [] path = none
file_at ((p, m) ∷ rest) path = if bytes_eq p path then some m else file_at rest path

-- The end of `promote_artifact`: a file that is there is not copied again.
unfoldable pub copy_unless_there :
    {Model : Type 0}
    → Option Model
    → Text
    → Result Model
    → List (Text × Model)
    → Result (List (Text × Model))
copy_unless_there (some m) path source cas = ok cas
copy_unless_there none path source cas = do m ← source; ok ((path, m) ∷ cas)

-- `promote_artifact`, on the live model and the suffix that `live_model_path` names
unfoldable pub promote_artifact :
    {Store Model : Type 0}
    → (Store → ℕ → Result Model)
    → Text
    → Files Store Model
    → ℕ
    → Text
    → Files Store Model × Result Text
unfolding copy_unless_there file_at
promote_artifact live suffix files shard result_weights =
    let path = result_weights ++ suffix in
    elim (copy_unless_there (file_at files.cas path) path (live files.store shard) files.cas) [
      | err e ↦ (files, err e)
      | ok cas ↦ (record files { cas = cas }, ok path)
    ]

-- `max(digests)`
unfoldable pub max_key : List (ℕ × Text) → Result ℕ
max_key [] = err value_error
max_key ((i, d) ∷ rest) = elim (max_key rest) [
  | err e ↦ ok i
  | ok j ↦ ok (if ltb i j then j else i)
]

-- What a rebuild of an engine is to the worker.
unfoldable pub rebuilt_files :
    {Store Model Rebuilt Replay : Type 0}
    → (Rebuilt → Outcome Replay)
    → Files Store Model
    → Store × Result Rebuilt
    → Files Store Model × Result (Outcome Replay)
rebuilt_files read files r = (record files { store = r.0 }, r.1 >>= λ result. ok (read result))

pair_injective : {A B : Type 0} (p q : A × B) → p ≡ q → (p.0 ≡ q.0) × (p.1 ≡ q.1)
pair_injective {A = A} {B = B} p q e = (ap (λ (r : A × B). r.0) e, ap (λ (r : A × B). r.1) e)

-- What stands at `other` when the file of `path` is `m`, and elsewhere is as in `cas`.
copied :
    {Model : Type 0} (cas after : List (Text × Model)) (path : Text) (source : Result Model)
    (other : Text)
    → copy_unless_there (file_at cas path) path source cas ≡ ok after
    → (m : Model) × ((file_at cas path ≡ some m) ⊎ ((file_at cas path ≡ none) × (source ≡ ok m)))
      × (file_at after other ≡ (if bytes_eq path other then some m else file_at cas other))
unfolding copy_unless_there file_at
copied cas after path source other e = elim (Option-cases (file_at cas path)) [
  | inr (m, f) ↦
      let same = ok_injective (rw (copy_unless_there, f) at e) in
      (m, inl f, kept cas after path other m f same)
  | inl f ↦ elim (Result-cases source) [
    | inl (x, g) ↦ absurd (cc (rw (copy_unless_there, f, g) at e))
    | inr (m, g) ↦
        let same = ok_injective (rw (copy_unless_there, f, g) at e) in
        (m, inr (f, g), rw (sym same) refl)
  ]
]
  where
    kept :
        {Model : Type 0} (cas after : List (Text × Model)) (path other : Text) (m : Model)
        → file_at cas path ≡ some m
        → cas ≡ after
        → file_at after other ≡ (if bytes_eq path other then some m else file_at cas other)
    kept cas after path other m f same = elim (Bool-cases (bytes_eq path other)) [
      | inl e ↦ rw (sym same, e) (subst (λ p. file_at cas p ≡ some m) (bytes_eq-eq path other e) f)
      | inr e ↦ rw (sym same, e) refl
    ]

-- When a promotion returns a path, the path is the digest of the weights with the suffix. Its file
-- is then the one that was there, and where none was the live model of the shard that was promoted;
-- at every other path there is afterwards what there was before.
pub promote_artifact-keeps :
    {Store Model : Type 0} (live : Store → ℕ → Result Model) (suffix : Text)
    (files after : Files Store Model) (shard : ℕ) (result_weights path other : Text)
    → promote_artifact live suffix files shard result_weights ≡ (after, ok path)
    → (path ≡ result_weights ++ suffix)
      × ((m : Model) × ((file_at files.cas path ≡ some m)
            ⊎ ((file_at files.cas path ≡ none) × (live files.store shard ≡ ok m)))
          × (file_at after.cas other
              ≡ (if bytes_eq path other then some m else file_at files.cas other)))
unfolding promote_artifact
promote_artifact-keeps live suffix files after shard result_weights path other e =
    let target = result_weights ++ suffix in
    elim (Result-cases
      (copy_unless_there (file_at files.cas target) target (live files.store shard) files.cas)) [
        | inl (x, g) ↦ absurd (cc (rw (promote_artifact, g) at e))
        | inr (cas, g) ↦
            let (same, named) =
              pair_injective (record files { cas = cas }, ok target) (after, ok path)
                (rw (promote_artifact, g) at e) in
            let shown = copied files.cas cas target (live files.store shard) other g in
            rw (sym (ap (λ (x : Files _ _). x.cas) same), sym (ok_injective named)) (refl, shown)
      ]
