-- ===== src/Certificate/Complete.antt =====
-- verify/verifier_cli.py: certificates that are accepted.
use unlearn_shield.Prelude.{◌≡◌, refl, Bool, true, false, [], ◌∷◌, All, All-map, keep_congr, some}
use unlearn_shield.Prelude.Result.{ok}
use unlearn_shield.Python.Bytes.{Bytes, Text, codes, bytes_eq}
use unlearn_shield.Python.Value.{Value, str_val, Fields, get, value_bytes}
use unlearn_shield.Smt.Proof.{verify_absence as smt_verify_absence}
use unlearn_shield.Certificate.Verifier.{
  signature_valid, proof_valid, absent_from, weights_produced, sparse, required_fields, lacks,
  missing, value_at, without, is_falsy, sliced, canonical_bytes, is_sparse, is_signed,
  verify_absence, after_proof, after_signature, check_signature, verify_certificate,
}
use unlearn_shield.Certificate.Accepted.{get-without}

unsigned-fields : All (λ f. bytes_eq (codes "signature") f ≡ false) required_fields
unfolding bytes_eq
unsigned-fields =
    (refl, (refl, (refl, (refl, (refl, (refl, (refl, (refl, (refl, (refl, (refl, tt)))))))))))

missing-without : (m : Fields) → missing (without m (codes "signature")) ≡ missing m
unfolding missing lacks
missing-without m = keep_congr (lacks (without m (codes "signature"))) (lacks m) required_fields (
    All-map (λ f. bytes_eq (codes "signature") f ≡ false)
      (λ f. lacks (without m (codes "signature")) f ≡ lacks m f) required_fields
      (λ f e. rw (lacks, get-without m (codes "signature") f e) refl) unsigned-fields)

-- A certificate of the sparse scheme that has every required field, a subject, root and weights
-- that are texts, a signature in hex digits, not empty, that checks against the canonical bytes of its other
-- fields, and a proof that verifies, is accepted.
pub verify_certificate_complete :
    (sha256 : Bytes → Bytes) (dumps : Fields → Bytes) (verifies : Bytes → Bytes → Bool) (m : Fields)
    (s r d w : Text) (proof : Value) (raw : Bytes)
    → missing m ≡ []
    → get m (codes "signature") ≡ some (str_val s)
    → is_falsy (str_val s) ≡ false
    → value_bytes (str_val s) ≡ some raw
    → verifies (dumps (without m (codes "signature"))) raw ≡ true
    → get m (codes "subject_ref") ≡ some (str_val r)
    → get m (codes "absence_proof") ≡ some proof
    → get m (codes "dataset_root") ≡ some (str_val d)
    → get m (codes "result_weights") ≡ some (str_val w)
    → is_sparse proof ≡ true
    → smt_verify_absence sha256 (str_val r) proof (str_val d) ≡ true
    → verify_certificate sha256 dumps verifies m
      ≡ ok (true, signature_valid ∷ proof_valid sparse ∷ absent_from ∷ weights_produced ∷ [])
unfolding verify_certificate check_signature is_signed canonical_bytes after_signature value_at
    verify_absence after_proof sliced bytes_eq
verify_certificate_complete sha256 dumps verifies m s r d w proof raw none_missing signed full hex
      checks e f g h scheme proven =
    rw
      (
        verify_certificate,
        none_missing,
        check_signature,
        signed,
        full,
        canonical_bytes,
        missing-without m,
        none_missing,
        hex,
        is_signed,
        checks,
        after_signature,
        value_at,
        get-without m (codes "signature") (codes "subject_ref") refl,
        e,
        get-without m (codes "signature") (codes "absence_proof") refl,
        f,
        get-without m (codes "signature") (codes "dataset_root") refl,
        g,
        get-without m (codes "signature") (codes "result_weights") refl,
        h,
        verify_absence,
        scheme,
        proven,
      )
      refl
