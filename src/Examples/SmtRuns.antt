-- ===== src/Examples/SmtRuns.antt =====
-- verify/smt.py on three references.
use unlearn_shield.Prelude.{◌≡◌, refl, inl, inr, true, false, List, [], ◌∷◌, All}
use unlearn_shield.Prelude.Result.{ok, err, value_error}
use unlearn_shield.Python.Bytes.{Text, bytes_eq, mem}
use unlearn_shield.Python.Hex.{from_hex, to_hex, hex_digit, digit_value, is_space, byte_then}
use unlearn_shield.Prelude.{keep}
use unlearn_shield.Python.Bytes.{bytes_compare, sorted_set}
use unlearn_shield.Python.Value.{Value, str_val, value_bytes, get}
use unlearn_shield.Smt.Hash.{bit, leaf, node_hash, empty_leaf, default_hash, singleton_root}
use unlearn_shield.Smt.Tree.{
  SparseMerkleTree, lefts, rights, build, new_tree, remove, build_root, root,
}
use unlearn_shield.Smt.Proof.{
  sibling_at, sibling_or, climb, proof_of, prove_absence, read_proof, read_target, read_siblings,
  is_text, verify_absence,
}
use unlearn_shield.Smt.Reference.{reference}
use unlearn_shield.Smt.Keys.{IsRef, key_of, key_set, In-key_set}
use unlearn_shield.Smt.Trees.{tree_of, tree_of-IsTree, build_root-reference}
use unlearn_shield.Smt.Absence.{IsForged, verify_absence_sound, prove_absence-verify}
use unlearn_shield.Smt.Incremental.{
  AllHeld, remaining, remove-rebuild, remove-missing, remove-proves,
}
use unlearn_shield.Smt.Cache.{Cache, tree_for_shard, Serves, tree_for_shard-Serves}
use unlearn_shield.Examples.Hashes.{mixing, mixing-IsDigest, constant, constant-IsDigest, ref}

abbrev pub refs : List Text
refs = ref 1 ∷ ref 2 ∷ ref 770 ∷ []

pub ref-1 : IsRef (ref 1)
unfolding ref from_hex hex_digit digit_value is_space byte_then
ref-1 = refl

pub ref-2 : IsRef (ref 2)
unfolding ref from_hex hex_digit digit_value is_space byte_then
ref-2 = refl

ref-5 : IsRef (ref 5)
unfolding ref from_hex hex_digit digit_value is_space byte_then
ref-5 = refl

pub refs-IsRef : All IsRef refs
unfolding ref from_hex hex_digit digit_value is_space byte_then
refs-IsRef = (refl, (refl, (refl, tt)))

-- A proof with no sibling, which a hash that maps everything to one digest cannot refute.
abbrev pub empty_proof : Value
empty_proof = proof_of []

pub constant_verifies :
    verify_absence constant (str_val (ref 2)) empty_proof (str_val (root (tree_of constant refs)))
    ≡ true
unfolding constant ref from_hex hex_digit digit_value is_space byte_then verify_absence root
    proof_of read_proof read_target value_bytes is_text get bytes_eq read_siblings climb sibling_or
    sibling_at default_hash node_hash empty_leaf build singleton_root leaf key_set sorted_set
    bytes_compare lefts rights keep bit
constant_verifies = refl

verify_absence_sound_example : IsForged constant (ref 2) refs empty_proof
verify_absence_sound_example =
    verify_absence_sound constant constant-IsDigest.size refs (ref 2) empty_proof refs-IsRef ref-2
      (inr (inl refl)) constant_verifies

abbrev target : List Text
target = ref 2 ∷ []

target-IsRef : All IsRef target
target-IsRef = (ref-2, tt)

target-AllHeld : AllHeld (tree_of mixing refs) target
target-AllHeld = (In-key_set (ref 2) refs (inr (inl refl)), tt)

remove-rebuild_example :
    (tree' : SparseMerkleTree) × (remove mixing (tree_of mixing refs) target ≡ ok tree')
    × (tree'.keys ≡ key_set (remaining target refs))
    × (root tree' ≡ root (tree_of mixing (remaining target refs)))
remove-rebuild_example = remove-rebuild mixing refs target refs-IsRef target-IsRef target-AllHeld

remove-proves_example :
    (tree' : SparseMerkleTree) × (proof : Value) × (remove mixing (tree_of mixing refs) target
      ≡ ok tree')
    × (prove_absence mixing tree' (ref 2) ≡ ok proof)
    × (verify_absence mixing (str_val (ref 2)) proof (str_val (root tree')) ≡ true)
remove-proves_example =
    remove-proves mixing mixing-IsDigest (tree_of mixing refs) target (ref 2)
      (tree_of-IsTree mixing refs refs-IsRef) target-IsRef target-AllHeld (inl refl)

five_absent : mem (key_of (ref 5)) (tree_of mixing refs).keys ≡ false
unfolding ref from_hex hex_digit digit_value is_space byte_then key_set sorted_set bytes_compare mem
    bytes_eq
five_absent = refl

prove_absence-verify_example :
    (proof : Value) × (prove_absence mixing (tree_of mixing refs) (ref 5) ≡ ok proof)
    × (verify_absence mixing (str_val (ref 5)) proof (str_val (root (tree_of mixing refs))) ≡ true)
prove_absence-verify_example =
    prove_absence-verify mixing mixing-IsDigest (tree_of mixing refs) (ref 5)
      (tree_of-IsTree mixing refs refs-IsRef) ref-5 five_absent

remove-missing_example : remove mixing (tree_of mixing refs) (ref 5 ∷ []) ≡ err value_error
remove-missing_example =
    remove-missing mixing (tree_of mixing refs) (ref 5 ∷ []) (ref 5) (ref-5, tt) (inl refl)
      five_absent

build_root-reference_example :
    (build_root mixing refs ≡ ok (to_hex (reference mixing 256 0 (key_set refs))))
    × (new_tree mixing refs ≡ ok (tree_of mixing refs))
    × (root (tree_of mixing refs) ≡ to_hex (reference mixing 256 0 (key_set refs)))
build_root-reference_example = build_root-reference mixing refs refs-IsRef

-- A cache whose entry for the shard is over other references.
abbrev stale : Cache
stale = (3, tree_of mixing target) ∷ []

tree_for_shard-Serves_example : Serves mixing refs (tree_for_shard mixing stale 3 refs)
tree_for_shard-Serves_example =
    tree_for_shard-Serves mixing stale 3 refs (tree_of-IsTree mixing target target-IsRef, tt)
      refs-IsRef
