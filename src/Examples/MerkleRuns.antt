-- ===== src/Examples/MerkleRuns.antt =====
-- verify/merkle.py on two and three short references.
use unlearn_shield.Prelude.{
  ℕ, ◌<◌, ◌≡◌, refl, inl, inr, ◌⊎◌, true, List, [], ◌∷◌, some, length, get_or, In, arith,
}
use unlearn_shield.Prelude.Result.{ok, err, value_error, attribute_error, map_result}
use unlearn_shield.Python.Bytes.{Bytes, Text, codes, bytes_eq, bytes_compare, sorted_set}
use unlearn_shield.Python.Hex.{from_hex, to_hex, hex_digit, digit_value, is_space, byte_then}
use unlearn_shield.Python.Value.{
  Value, str_val, int_val, pos, dict_val, list_val, field, end, str_key, nil, cons, value_bytes,
  get,
}
use unlearn_shield.Smt.Hash.{keys_of, ref_bytes}
use unlearn_shield.Merkle.Tree.{
  to_bytes, strip, turns_right, next, commit, leaf_hash, node_hash, mth, audit_path, build_root,
  reconstruct_on, reconstruct_root,
}
use unlearn_shield.Merkle.Soundness.{
  SecondPreimage, Hashed, Published, reconstruct_root_sound, audit_path-reconstruct_root,
}
use unlearn_shield.Merkle.Proof.{
  comes_before, as_int, int_eq, plus_one, is_int, get_or_null, is_null, as_dict, then_bytes,
  items_bytes, path_bytes, entry_from, read_entry, verify_audit_path, check, index_after,
  both_sides, between, verify_sized, verify_dict, verify_texts, verify_absence, prove_absence,
}
use unlearn_shield.Merkle.Absence.{merkle_verify_absence_sound}
use unlearn_shield.Merkle.Completeness.{
  listed, merkle_prove_absence-verify, merkle_prove_absence-present, merkle_verify_absence-raises,
}
use unlearn_shield.Examples.Hashes.{mixing, mixing-IsDigest, constant, constant-IsDigest, spread}

abbrev refs : List Text
refs = codes "05" ∷ codes "01" ∷ codes "03" ∷ []

abbrev leaves : List Bytes
leaves = (1 ∷ []) ∷ (3 ∷ []) ∷ (5 ∷ []) ∷ []

keys : keys_of refs ≡ ok leaves
unfolding keys_of map_result ref_bytes from_hex digit_value is_space byte_then sorted_set
    bytes_compare
keys = refl

read_three : from_hex (codes "03") ≡ some (3 ∷ [])
unfolding from_hex digit_value is_space byte_then
read_three = refl

read_four : from_hex (codes "04") ≡ some (4 ∷ [])
unfolding from_hex digit_value is_space byte_then
read_four = refl

no_four : ¬ In (4 ∷ []) leaves
no_four (inl e) = absurd (cc e)
no_four (inr (inl e)) = absurd (cc e)
no_four (inr (inr (inl e))) = absurd (cc e)
no_four (inr (inr (inr m))) = absurd m

audit_path-reconstruct_root_example :
    reconstruct_root mixing
      (get_or leaves 2 [])
      (pos 2)
      (length leaves)
      (audit_path mixing 2 leaves)
    ≡ some (mth mixing leaves)
audit_path-reconstruct_root_example = audit_path-reconstruct_root mixing 2 leaves (omega arith)

merkle_prove_absence-verify_example :
    (root : Text) × (proof : Value) × (build_root mixing refs ≡ ok root)
    × (prove_absence mixing (codes "04") refs ≡ ok proof)
    × (verify_absence mixing (str_val (codes "04")) proof (str_val root) ≡ ok true)
merkle_prove_absence-verify_example =
    merkle_prove_absence-verify mixing mixing-IsDigest refs (codes "04") leaves (4 ∷ []) keys
      (omega arith) read_four no_four

merkle_prove_absence-present_example : prove_absence mixing (codes "03") refs ≡ err value_error
merkle_prove_absence-present_example =
    merkle_prove_absence-present mixing refs (codes "03") leaves (3 ∷ []) keys read_three
      (inr (inl refl))

merkle_verify_absence-raises_example :
    verify_absence mixing (str_val (codes "03")) (listed 2 nil) (str_val (codes "00"))
    ≡ err attribute_error
merkle_verify_absence-raises_example =
    merkle_verify_absence-raises mixing (codes "03") (3 ∷ []) (codes "00") 2 nil read_three

-- Two leaves that are not there, which a hash that maps everything to one digest cannot refute.
abbrev forged_entry : Text → ℕ → Value
forged_entry leaf index = dict_val (
    field (str_key (codes "leaf")) (str_val leaf) (
      field (str_key (codes "index")) (int_val (pos index))
        (field (str_key (codes "path")) (list_val (cons (str_val []) nil)) end)))

abbrev forged : Value
forged = dict_val (
    field (str_key (codes "tree_size")) (int_val (pos 2)) (
      field (str_key (codes "predecessor")) (forged_entry (codes "00") 0)
        (field (str_key (codes "successor")) (forged_entry (codes "02") 1) end)))

abbrev pair : List Text
pair = codes "01" ∷ codes "07" ∷ []

pair_keys : keys_of pair ≡ ok ((1 ∷ []) ∷ (7 ∷ []) ∷ [])
unfolding keys_of map_result ref_bytes from_hex digit_value is_space byte_then sorted_set
    bytes_compare
pair_keys = refl

pair_root : build_root constant pair ≡ ok (to_hex (constant []))
unfolding build_root keys_of map_result ref_bytes from_hex digit_value is_space byte_then sorted_set
    bytes_compare commit to_bytes constant
pair_root = refl

pair_target : value_bytes (str_val (codes "01")) ≡ some (1 ∷ [])
unfolding value_bytes from_hex digit_value is_space byte_then
pair_target = refl

forged_verifies :
    verify_absence constant (str_val (codes "01")) forged (str_val (to_hex (constant []))) ≡ ok true
unfolding verify_absence value_bytes from_hex digit_value is_space byte_then verify_texts
    verify_dict verify_sized get_or_null get as_int bytes_eq is_null between as_dict index_after
    plus_one is_int int_eq check read_entry entry_from path_bytes items_bytes then_bytes
    verify_audit_path reconstruct_root reconstruct_on next strip turns_right commit to_bytes
    constant spread to_hex hex_digit both_sides comes_before bytes_compare leaf_hash node_hash
forged_verifies = refl

merkle_verify_absence_sound_example :
    SecondPreimage constant (Published constant ((1 ∷ []) ∷ (7 ∷ []) ∷ []))
merkle_verify_absence_sound_example =
    merkle_verify_absence_sound constant constant-IsDigest.size pair (codes "01") forged
      ((1 ∷ []) ∷ (7 ∷ []) ∷ []) (1 ∷ []) (to_hex (constant [])) pair_keys pair_root pair_target
      (inl refl) forged_verifies

reconstruct_root_sound_example :
    ((2 < length leaves) × (get_or leaves 2 [] ≡ get_or leaves 2 []))
    ⊎ SecondPreimage mixing (Hashed mixing leaves)
reconstruct_root_sound_example =
    reconstruct_root_sound mixing mixing-IsDigest.size 2 (get_or leaves 2 []) leaves
      (audit_path mixing 2 leaves) (audit_path-reconstruct_root mixing 2 leaves (omega arith))
