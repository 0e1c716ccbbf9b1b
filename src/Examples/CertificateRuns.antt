-- ===== src/Examples/CertificateRuns.antt =====
-- verify/verifier_cli.py on a certificate, with a hash that maps everything to one digest.
use unlearn_shield.Prelude.{◌≡◌, refl, inl, inr, true, [], ◌∷◌, keep}
use unlearn_shield.Prelude.Result.{ok}
use unlearn_shield.Python.Bytes.{Bytes, Text, codes, bytes_eq, bytes_compare, sorted_set}
use unlearn_shield.Python.Hex.{from_hex, hex_digit, digit_value, is_space, byte_then}
use unlearn_shield.Python.Value.{
  Value, null, str_val, value_bytes, str_key, Fields, end, field, get,
}
use unlearn_shield.Smt.Hash.{bit, leaf, node_hash, empty_leaf, default_hash, singleton_root}
use unlearn_shield.Smt.Tree.{lefts, rights, build, root}
use unlearn_shield.Smt.Proof.{
  sibling_at, sibling_or, climb, proof_of, read_proof, read_target, read_siblings, is_text,
}
use unlearn_shield.Smt.Proof.{verify_absence as smt_verify_absence}
use unlearn_shield.Smt.Keys.{key_set}
use unlearn_shield.Smt.Trees.{tree_of}
use unlearn_shield.Certificate.Verifier.{
  signature_valid, proof_valid, absent_from, weights_produced, sparse, missing, lacks, value_at,
  without, is_falsy, sliced, canonical_bytes, is_sparse, is_signed, verify_absence, after_proof,
  after_signature, check_signature, verify_certificate,
}
use unlearn_shield.Smt.Absence.{IsForged}
use unlearn_shield.Certificate.Accepted.{Signed, verify_certificate_sound}
use unlearn_shield.Certificate.Complete.{verify_certificate_complete}
use unlearn_shield.Examples.Hashes.{constant, constant-IsDigest, ref}
use unlearn_shield.Examples.SmtRuns.{refs, refs-IsRef, ref-2, empty_proof, constant_verifies}

abbrev entry : Text → Value → Fields → Fields
entry k v rest = field (str_key k) v rest

abbrev certificate : Fields
certificate = entry (codes "subject_ref") (str_val (ref 2)) (
    entry (codes "absence_proof") empty_proof (
      entry (codes "dataset_root") (str_val (root (tree_of constant refs))) (
        entry (codes "shard") null (
          entry (codes "resumed_from") null (
            entry (codes "code_digest") null (
              entry (codes "config_digest") null (
                entry (codes "result_weights") (str_val (codes "f00d")) (
                  entry (codes "model_version") null (
                    entry (codes "purged_at") null (
                      entry (codes "completed_at") null
                        (entry (codes "signature") (str_val (codes "51")) end)))))))))))

abbrev dumps : Fields → Bytes
dumps m = []

accepted :
    verify_certificate constant dumps (λ message raw. true) certificate
    ≡ ok (true, signature_valid ∷ proof_valid sparse ∷ absent_from ∷ weights_produced ∷ [])
unfolding constant ref from_hex hex_digit digit_value is_space byte_then smt_verify_absence root
    proof_of read_proof read_target value_bytes is_text get bytes_eq read_siblings climb sibling_or
    sibling_at default_hash node_hash empty_leaf build singleton_root leaf key_set sorted_set
    bytes_compare lefts rights keep bit missing lacks value_at without is_falsy sliced
    canonical_bytes is_sparse is_signed verify_absence after_proof after_signature check_signature
    verify_certificate
accepted = refl

verify_certificate_sound_example :
    Signed constant dumps (λ message raw. true) certificate
    × IsForged constant (ref 2) refs empty_proof
unfolding get bytes_eq is_sparse proof_of is_text
verify_certificate_sound_example =
    verify_certificate_sound constant dumps (λ message raw. true) constant-IsDigest.size certificate
      (signature_valid ∷ proof_valid sparse ∷ absent_from ∷ weights_produced ∷ []) refs (ref 2)
      empty_proof refl refl refl refl refs-IsRef ref-2 (inr (inl refl)) accepted

verify_certificate_complete_example :
    verify_certificate constant dumps (λ message raw. true) certificate
    ≡ ok (true, signature_valid ∷ proof_valid sparse ∷ absent_from ∷ weights_produced ∷ [])
unfolding get bytes_eq is_sparse proof_of is_text missing lacks keep is_falsy value_bytes from_hex
    hex_digit digit_value is_space byte_then
verify_certificate_complete_example =
    verify_certificate_complete constant dumps (λ message raw. true) certificate (codes "51")
      (ref 2) (root (tree_of constant refs)) (codes "f00d") empty_proof (81 ∷ []) refl refl refl
      refl refl refl refl refl refl refl constant_verifies
