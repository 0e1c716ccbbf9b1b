-- ===== src/Engine/Manifests.antt =====
-- The manifests of a batch: each has a proof that its subject is absent from the published root.
use unlearn_shield.Prelude.{
  ◌≡◌, refl, sym, ap, ◌∙◌, subst, inl, inr, Bool, true, not, List, [], ◌∷◌, Option, none, some, map,
  keep, keep_congr, All, All-map, All-In, All-zip, All-keep, In, Bool-cases,
}
use unlearn_shield.Prelude.Result.{Result, ok, map_result}
use unlearn_shield.Python.Bytes.{Bytes, Text, mem, In-mem, mem-In}
use unlearn_shield.Python.Hex.{to_hex}
use unlearn_shield.Python.Value.{Value, str_val}
use unlearn_shield.Smt.Hash.{IsDigest, depth_bits}
use unlearn_shield.Smt.Tree.{SparseMerkleTree, remove, root}
use unlearn_shield.Smt.Proof.{prove_absence, verify_absence}
use unlearn_shield.Smt.Reference.{reference}
use unlearn_shield.Smt.Keys.{IsRef, key_of, key_set, In-key_set}
use unlearn_shield.Smt.Trees.{IsTree, tree_of, tree_of-IsTree, root-reference}
use unlearn_shield.Smt.Absence.{prove_absence-verify}
use unlearn_shield.Smt.Incremental.{
  remaining, AllHeld, remove-IsTree, mem-without_all, In-key_of, key_set-keep,
}
use unlearn_shield.Engine.Store.{Row}
use unlearn_shield.Engine.Purge.{Purged}
use unlearn_shield.Engine.Retained.{ref_of, retained}
use unlearn_shield.Engine.Rebuild.{Manifest, Context, build_manifest, sign_with, manifest_for}

-- Signing does not raise, as where the key is set.
abbrev pub IsSigner : Option (Manifest → Result Text) → Type 0
IsSigner none = Unit
IsSigner (some sign) = (m : Manifest) → (s : Text) × (sign m ≡ ok s)

sign_with-ok :
    (sign : Option (Manifest → Result Text)) (m : Manifest)
    → IsSigner sign
    → (s : Option Text) × (sign_with sign m ≡ ok (record m { signature = s }))
unfolding sign_with
sign_with-ok none m h = (m.signature, refl)
sign_with-ok (some sign) m h = (some (h m).0, rw (h m).1 refl)

module _ (sha256 : Bytes → Bytes) where
  -- There is a proof, and it verifies against the root of the tree.
  abbrev pub IsProven : SparseMerkleTree → Text → Type 0
  IsProven tree ref =
      (proof : Value) × (prove_absence sha256 tree ref ≡ ok proof)
      × (verify_absence sha256 (str_val ref) proof (str_val (root tree)) ≡ true)

  -- What the manifest that the call returns for a reference shows.
  abbrev pub Shows : Text → Text × Manifest → Type 0
  Shows dataset_root m =
      (m.1.subject_ref ≡ m.0)
      × (m.1.dataset_root ≡ dataset_root)
      × (verify_absence sha256 (str_val m.0) m.1.absence_proof (str_val dataset_root) ≡ true)

  module _ {D : Type 0} (c : Context) (engine : Text) (p : Purged D) (tree : SparseMerkleTree)
      (weights : Text) where
    manifest_for-Shows :
        (ref : Text)
        → IsProven tree ref
        → IsSigner c.sign_manifest
        → (m : Manifest) × (manifest_for sha256 c engine p tree weights ref ≡ ok (ref, m))
          × Shows (root tree) (ref, m)
    unfolding manifest_for build_manifest
    manifest_for-Shows ref (proof, made, verified) signer =
        let (s, signed) =
          sign_with-ok c.sign_manifest (build_manifest sha256 c engine p tree weights ref proof)
            signer in
        (
          record (build_manifest sha256 c engine p tree weights ref proof) { signature = s },
          rw (made, signed) refl,
          (refl, refl, verified),
        )

    pub manifests-Shows :
        (refs : List Text)
        → All (IsProven tree) refs
        → IsSigner c.sign_manifest
        → (ms : List (Text × Manifest)) × (map_result
              (manifest_for sha256 c engine p tree weights)
              refs
            ≡ ok ms)
          × (map (λ m. m.0) ms ≡ refs)
          × All (Shows (root tree)) ms
    unfolding map_result
    manifests-Shows [] h signer = ([], refl, refl, tt)
    manifests-Shows (ref ∷ refs) h signer =
        let (m, made, shown) = manifest_for-Shows ref h.0 signer in
        let (ms, all_made, same, all_shown) = manifests-Shows refs h.1 signer in
        ((ref, m) ∷ ms, rw (made, all_made) refl, ap (◌∷◌ ref) same, (shown, all_shown))

-- References of which no two spell the same bytes.
abbrev pub IsCanonical : List Text → Type 0
IsCanonical refs = (a b : Text) → In a refs → In b refs → key_of a ≡ key_of b → a ≡ b

In-map-key_of :
    (k : Bytes) (refs : List Text)
    → In k (map key_of refs)
    → (b : Text) × In b refs × (k ≡ key_of b)
In-map-key_of k [] m = absurd m
In-map-key_of k (r ∷ refs) (inl e) = (r, inl refl, e)
In-map-key_of k (r ∷ refs) (inr m) = let (b, i, e) = In-map-key_of k refs m in (b, inr i, e)

mem-key_of :
    (refs held : List Text) (a : Text)
    → IsCanonical held
    → In a held
    → All (λ r. In r held) refs
    → mem (key_of a) (map key_of refs) ≡ mem a refs
mem-key_of refs held a canonical m h = elim (Bool-cases (mem (key_of a) (map key_of refs))) [
  | inl e ↦
      let (b, i, same) = In-map-key_of _ refs (mem-In _ _ e) in
      let eq = canonical a b m (All-In (λ r. In r held) b refs h i) same in
      e ∙ sym (In-mem a refs (subst (λ x. In x refs) (sym eq) i))
  | inr e ↦ elim (Bool-cases (mem a refs)) [
    | inl t ↦ absurd (cc (e, In-mem _ _ (In-key_of a refs (mem-In a refs t))))
    | inr t ↦ e ∙ sym t
  ]
]

pub All-self : {A : Type 0} (xs : List A) → All (λ x. In x xs) xs
All-self [] = tt
All-self (x ∷ xs) = (inl refl, All-map _ _ xs (λ y m. inr m) (All-self xs))

pub map-keep_refs :
    {D : Type 0} (p : Text → Bool) (records : List (Row D))
    → map ref_of (keep (λ (r : Row D). p r.subject_ref) records) ≡ keep p (map ref_of records)
unfolding keep
map-keep_refs p [] = refl
map-keep_refs p (r ∷ records) = elim (Bool-cases (p r.subject_ref)) [
  | inl e ↦ rw e (ap (◌∷◌ r.subject_ref) (map-keep_refs p records))
  | inr e ↦ rw e (map-keep_refs p records)
]

-- What is left by key is what is left by reference.
pub remaining-retained :
    {D : Type 0} (refs : List Text) (records : List (Row D))
    → IsCanonical (map ref_of records)
    → All (λ r. In r (map ref_of records)) refs
    → remaining refs (map ref_of records) ≡ map ref_of (retained refs records)
remaining-retained refs records canonical h =
    keep_congr _ _ (map ref_of records) (
      All-map _ _ _ (λ a m. ap not (mem-key_of refs _ a canonical m h))
        (All-self (map ref_of records)))
    ∙ sym (map-keep_refs (λ a. not (mem a refs)) records)

-- The tree after the removal: its root, and a proof for each reference.
pub remove-IsProven :
    (sha256 : Bytes → Bytes)
    → IsDigest sha256
    → (tree : SparseMerkleTree) (held refs : List Text) → IsTree sha256 tree
    → tree.keys ≡ key_set held
    → All IsRef held
    → All (λ r. In r held) refs
    → (tree' : SparseMerkleTree) × (remove sha256 tree refs ≡ ok tree')
      × IsTree sha256 tree'
      × (root tree' ≡ root (tree_of sha256 (remaining refs held)))
      × All (IsProven sha256 tree') refs
remove-IsProven sha256 digest tree held refs h keys_eq all_refs m =
    let refs_ok = All-map _ IsRef refs (λ r i. All-In IsRef r held all_refs i) m in
    let in_tree : AllHeld tree refs =
      All-map _ _ refs (λ r i. rw keys_eq (In-key_set r held i)) m in
    let (tree', f, w, e) = remove-IsTree sha256 tree refs h refs_ok in_tree in
    let keys' =
      e
      ∙ (ap (λ ks. keep (λ k. not (mem k (map key_of refs))) ks) keys_eq
          ∙ key_set-keep (λ k. not (mem k (map key_of refs))) held) in
    let rest = tree_of-IsTree sha256 (remaining refs held) (All-keep IsRef _ held all_refs) in
    (
      tree',
      f,
      w,
      root-reference sha256 tree' w
          ∙ (ap (λ ks. to_hex (reference sha256 depth_bits 0 ks)) keys'
              ∙ sym (root-reference sha256 (tree_of sha256 (remaining refs held)) rest)),
      All-map _ _ refs
          (λ r q.
            prove_absence-verify sha256 digest tree' r w q.0 (
              rw e (mem-without_all (map key_of refs) tree.keys (key_of r) (In-key_of r refs q.1))))
          (All-zip IsRef (λ r. In r refs) refs refs_ok (All-self refs)),
    )
