-- ===== src/Certificate/Verifier.antt =====
-- verify/verifier_cli.py, and canonical_bytes of verify/manifest.py. json.dumps is the parameter
-- `dumps`, and the check of an Ed25519 signature is `verifies`.
use unlearn_shield.Prelude.{
  zero, suc, Bool, true, false, not, List, [], ◌∷◌, Option, none, some, keep, if◌then◌else◌,
}
use unlearn_shield.Prelude.Result.{Result, ok, err, value_error, key_error, type_error, ◌>>=◌}
use unlearn_shield.Python.Bytes.{Bytes, Text, codes}
use unlearn_shield.Python.Value.{
  pos, negsuc, Value, null, bool_val, int_val, str_val, list_val, dict_val, nil, cons, Fields, end,
  field, key_is, get, value_bytes,
}
use unlearn_shield.Smt.Proof.{is_text}
use unlearn_shield.Smt.Proof.{verify_absence as smt_verify_absence}
use unlearn_shield.Merkle.Proof.{verify_absence as merkle_verify_absence}

pub data Scheme : Type 0 where
  sparse legacy : Scheme

-- What the verifier says: a line of `findings`.
pub data Finding : Type 0 where
  missing_fields : List Text → Finding
  no_signature signature_valid signature_invalid proof_invalid : Finding
  proof_valid : Scheme → Finding
  absent_from : Finding
  weights_produced : Finding

abbrev pub required_fields : List Text
required_fields =
    codes "subject_ref"
    ∷ codes "shard"
    ∷ codes "resumed_from"
    ∷ codes "dataset_root"
    ∷ codes "absence_proof"
    ∷ codes "code_digest"
    ∷ codes "config_digest"
    ∷ codes "result_weights"
    ∷ codes "model_version"
    ∷ codes "purged_at"
    ∷ codes "completed_at"
    ∷ []

-- `f not in manifest`
unfoldable pub lacks : Fields → Text → Bool
lacks m f = elim (get m f) [ none ↦ true | some v ↦ false ]

-- `missing`
unfoldable pub missing : Fields → List Text
unfolding lacks
missing m = keep (lacks m) required_fields

-- `manifest[f]`
unfoldable pub value_at : Fields → Text → Result Value
value_at m f = elim (get m f) [ none ↦ err key_error | some v ↦ ok v ]

-- `manifest.pop(f, None)`: what is left.
unfoldable pub without : Fields → Text → Fields
without end f = end
without (field k v rest) f = if key_is k f then rest else field k v (without rest f)

-- `not v`
unfoldable pub is_falsy : Value → Bool
is_falsy null = true
is_falsy (bool_val b) = not b
is_falsy (int_val (pos zero)) = true
is_falsy (int_val (pos (suc n))) = false
is_falsy (int_val (negsuc n)) = false
is_falsy (str_val []) = true
is_falsy (str_val (c ∷ s)) = false
is_falsy (list_val nil) = true
is_falsy (list_val (cons v items)) = false
is_falsy (dict_val end) = true
is_falsy (dict_val (field k v rest)) = false

-- `v[:16]`
unfoldable pub sliced : Value → Result {0} Unit
sliced (str_val s) = ok tt
sliced (list_val items) = ok tt
sliced _ = err type_error

-- `isinstance(proof, dict) and proof.get("scheme") == "smt-256"`
unfoldable pub is_sparse : Value → Bool
is_sparse (dict_val proof) = elim (get proof (codes "scheme")) [
  | none ↦ false
  | some s ↦ is_text s (codes "smt-256")
]
is_sparse _ = false

unfoldable pub canonical_bytes : (Fields → Bytes) → Fields → Result Bytes
unfolding missing
canonical_bytes dumps m = elim (missing m) [ [] ↦ ok (dumps m) | f ∷ fs ↦ err value_error ]

-- The body of the `try`, and whether it raises: `raw` is `bytes.fromhex(signature)`.
unfoldable pub is_signed : (Bytes → Bytes → Bool) → Result Bytes → Option Bytes → Bool
is_signed verifies (err e) raw = false
is_signed verifies (ok message) none = false
is_signed verifies (ok message) (some raw) = verifies message raw

module _ (sha256 : Bytes → Bytes) where
  -- `verify_absence`, which dispatches on the scheme.
  unfoldable pub verify_absence : Value → Value → Value → Result (Bool × Scheme)
  unfolding is_sparse smt_verify_absence merkle_verify_absence
  verify_absence subject_ref proof dataset_root =
      if is_sparse proof
      then ok (smt_verify_absence sha256 subject_ref proof dataset_root, sparse)
      else (merkle_verify_absence sha256 subject_ref proof dataset_root >>= λ valid.
          ok (valid, legacy))

  -- From the verdict on the proof on.
  unfoldable pub after_proof : Value → Value → Value → Bool × Scheme → Result (Bool × List Finding)
  unfolding sliced
  after_proof subject_ref dataset_root result_weights (false, scheme) =
      ok (false, signature_valid ∷ proof_invalid ∷ [])
  after_proof subject_ref dataset_root result_weights (true, scheme) = do
    _ ← sliced dataset_root
    _ ← sliced subject_ref
    _ ← sliced result_weights
    ok (true, signature_valid ∷ proof_valid scheme ∷ absent_from ∷ weights_produced ∷ [])

  -- From the valid signature on.
  unfoldable pub after_signature : Fields → Result (Bool × List Finding)
  unfolding value_at verify_absence after_proof
  after_signature m = do
    subject_ref ← value_at m (codes "subject_ref")
    proof ← value_at m (codes "absence_proof")
    dataset_root ← value_at m (codes "dataset_root")
    result_weights ← value_at m (codes "result_weights")
    verdict ← verify_absence subject_ref proof dataset_root
    after_proof subject_ref dataset_root result_weights verdict

  unfoldable pub check_signature :
      (Fields → Bytes)
      → (Bytes → Bytes → Bool)
      → Fields
      → Option Value
      → Result (Bool × List Finding)
  unfolding is_falsy canonical_bytes is_signed after_signature
  check_signature dumps verifies m none = ok (false, no_signature ∷ [])
  check_signature dumps verifies m (some signature) =
      if is_falsy signature
      then ok (false, no_signature ∷ [])
      else if is_signed verifies (canonical_bytes dumps m) (value_bytes signature)
      then after_signature m
      else ok (false, signature_invalid ∷ [])

  unfoldable pub verify_certificate :
      (Fields → Bytes) → (Bytes → Bytes → Bool) → Fields → Result (Bool × List Finding)
  unfolding missing check_signature without
  verify_certificate dumps verifies m = elim (missing m) [
    | f ∷ fs ↦ ok (false, missing_fields (f ∷ fs) ∷ [])
    | [] ↦
        check_signature dumps verifies (without m (codes "signature")) (get m (codes "signature"))
  ]
