-- ===== src/Certificate/Accepted.antt =====
-- verify/verifier_cli.py: what it takes for a certificate to be accepted.
use unlearn_shield.Prelude.{
  ◌≡◌, refl, ◌∙◌, inl, inr, ◌⊎◌, Bool, true, false, List, [], ◌∷◌, All, In, Option, none, some,
  Bool-cases, Option-cases,
}
use unlearn_shield.Prelude.Result.{ok}
use unlearn_shield.Python.Bytes.{Bytes, Text, codes, bytes_eq, bytes_eq-eq}
use unlearn_shield.Python.Value.{
  Value, str_val, str_key, int_key, Fields, end, field, get, value_bytes,
}
use unlearn_shield.Smt.Hash.{IsSized}
use unlearn_shield.Smt.Tree.{root}
use unlearn_shield.Smt.Trees.{tree_of}
use unlearn_shield.Smt.Keys.{IsRef}
use unlearn_shield.Smt.Absence.{IsForged, verify_absence_sound}
use unlearn_shield.Smt.Proof.{verify_absence as smt_verify_absence}
use unlearn_shield.Certificate.Verifier.{
  Finding, missing, value_at, without, is_falsy, canonical_bytes, is_sparse, is_signed,
  verify_absence, after_proof, after_signature, check_signature, verify_certificate,
}

pub get-without : (m : Fields) (f g : Text) → bytes_eq f g ≡ false → get (without m f) g ≡ get m g
unfolding get without
get-without end f g h = refl
get-without (field (str_key t) v rest) f g h = elim (Bool-cases (bytes_eq t f)) [
  | inl e ↦ rw (e, bytes_eq-eq t f e, h) refl
  | inr e ↦ elim (Bool-cases (bytes_eq t g)) [
    | inl i ↦ rw (e, i) refl
    | inr i ↦ rw (e, i) (get-without rest f g h)
  ]
]
get-without (field (int_key n) v rest) f g h = get-without rest f g h

List-cases : {A : Type 0} (xs : List A) → (xs ≡ []) ⊎ ((x : A) × (ys : List A) × (xs ≡ x ∷ ys))
List-cases [] = inl refl
List-cases (x ∷ xs) = inr (x, xs, refl)

module _ (sha256 : Bytes → Bytes) (dumps : Fields → Bytes) (verifies : Bytes → Bytes → Bool) where
  -- The signature, its octets, and that they sign the canonical bytes of the other fields.
  abbrev pub Signed : Fields → Type 0
  Signed m =
      (signature : Value) × (raw : Bytes) × (get m (codes "signature") ≡ some signature)
      × (value_bytes signature ≡ some raw)
      × (verifies (dumps (without m (codes "signature"))) raw ≡ true)

  is_signed-verifies :
      (m : Fields) (raw : Option Bytes)
      → is_signed verifies (canonical_bytes dumps m) raw ≡ true
      → (r : Bytes) × (raw ≡ some r) × (verifies (dumps m) r ≡ true)
  unfolding is_signed canonical_bytes
  is_signed-verifies m raw h = elim (List-cases (missing m)) [
    | inr (f, fs, e) ↦ absurd (cc (rw (is_signed, canonical_bytes, e) at h))
    | inl e ↦ elim (Option-cases raw) [
      | inl i ↦ absurd (cc (rw (is_signed, canonical_bytes, e, i) at h))
      | inr (r, i) ↦ (r, i, rw (is_signed, canonical_bytes, e, i) at h)
    ]
  ]

  check_signature-accepted :
      (m : Fields) (signature : Option Value) (findings : List Finding)
      → check_signature sha256 dumps verifies m signature ≡ ok (true, findings)
      → ((s : Value) × (raw : Bytes) × (signature ≡ some s)
          × (value_bytes s ≡ some raw)
          × (verifies (dumps m) raw ≡ true))
        × (after_signature sha256 m ≡ ok (true, findings))
  unfolding check_signature
  check_signature-accepted m none findings h = absurd (cc h)
  check_signature-accepted m (some s) findings h = elim (Bool-cases (is_falsy s)) [
    | inl e ↦ absurd (cc (rw (check_signature, e) at h))
    | inr e ↦ elim (Bool-cases (is_signed verifies (canonical_bytes dumps m) (value_bytes s))) [
      | inr i ↦ absurd (cc (rw (check_signature, e, i) at h))
      | inl i ↦
          let (raw, j, k) = is_signed-verifies m (value_bytes s) i in
          ((s, raw, refl, j, k), rw (check_signature, e, i) at h)
    ]
  ]

  verify_certificate-accepted :
      (m : Fields) (findings : List Finding)
      → verify_certificate sha256 dumps verifies m ≡ ok (true, findings)
      → Signed m × (after_signature sha256 (without m (codes "signature")) ≡ ok (true, findings))
  unfolding verify_certificate
  verify_certificate-accepted m findings h = elim (List-cases (missing m)) [
    | inr (f, fs, e) ↦ absurd (cc (rw (verify_certificate, e) at h))
    | inl e ↦
        check_signature-accepted (without m (codes "signature")) (get m (codes "signature"))
          findings (rw (verify_certificate, e) at h)
  ]

  after_signature-sparse :
      (m : Fields) (subject_ref proof dataset_root : Value) (findings : List Finding)
      → get m (codes "subject_ref") ≡ some subject_ref
      → get m (codes "absence_proof") ≡ some proof
      → get m (codes "dataset_root") ≡ some dataset_root
      → is_sparse proof ≡ true
      → after_signature sha256 m ≡ ok (true, findings)
      → smt_verify_absence sha256 subject_ref proof dataset_root ≡ true
  unfolding after_signature value_at verify_absence after_proof
  after_signature-sparse m subject_ref proof dataset_root findings e f g s h =
      elim (Option-cases (get m (codes "result_weights"))) [
        | inl i ↦ absurd (cc (rw (after_signature, value_at, e, f, g, i) at h))
        | inr (w, i) ↦
            elim (Bool-cases (smt_verify_absence sha256 subject_ref proof dataset_root)) [
              | inl j ↦ j
              | inr j ↦
                  absurd
                    (cc (rw (after_signature, value_at, e, f, g, i, verify_absence, s, j) at h))
            ]
      ]

  -- If digests all have 32 entries, of whatever size, and a certificate of the sparse scheme is
  -- accepted, its root that of the tree over 32-byte references and its subject one of them, then it
  -- carries a signature that checks against the canonical bytes of its other fields, and one of the
  -- inputs that the verifier hashes has the digest of another input, which the full tree hashes on
  -- the way to the subject.
  pub verify_certificate_sound :
      (sized : IsSized sha256) (m : Fields) (findings : List Finding) (refs : List Text) (r : Text)
      (proof : Value)
      → get m (codes "subject_ref") ≡ some (str_val r)
      → get m (codes "absence_proof") ≡ some proof
      → get m (codes "dataset_root") ≡ some (str_val (root (tree_of sha256 refs)))
      → is_sparse proof ≡ true
      → All IsRef refs
      → IsRef r
      → In r refs
      → verify_certificate sha256 dumps verifies m ≡ ok (true, findings)
      → Signed m × IsForged sha256 r refs proof
  unfolding bytes_eq
  verify_certificate_sound sized m findings refs r proof e f g s h ref member accepted =
      let (signed, passed) = verify_certificate-accepted m findings accepted in
      let rest = without m (codes "signature") in
      let checked =
        after_signature-sparse rest (str_val r) proof (str_val (root (tree_of sha256 refs)))
          findings (get-without m (codes "signature") (codes "subject_ref") refl ∙ e)
          (get-without m (codes "signature") (codes "absence_proof") refl ∙ f)
          (get-without m (codes "signature") (codes "dataset_root") refl ∙ g) s passed in
      (signed, verify_absence_sound sha256 sized refs r proof h ref member checked)
