-- ===== src/Smt/Absence.antt =====
-- Absence proofs: the prover's verify, present subjects get none, and none verifies for a member.
use unlearn_shield.Prelude.{
  ◌≡◌, refl, sym, ◌∙◌, inl, inr, true, false, List, some, none, All, In, Option-cases, arith,
}
use unlearn_shield.Prelude.Result.{ok, err, value_error}
use unlearn_shield.Python.Bytes.{Bytes, Text, bytes_eq, bytes_eq_refl, bytes_eq-eq, mem}
use unlearn_shield.Python.Hex.{to_hex, to_hex-inj}
use unlearn_shield.Python.Value.{Value, str_val, value_bytes}
use unlearn_shield.Smt.Hash.{IsDigest, IsSized, depth_bits}
use unlearn_shield.Smt.Tree.{SparseMerkleTree, root}
use unlearn_shield.Smt.Proof.{
  Siblings, climb, proof_of, prove_absence, verify_absence, read_target, read_proof, is_text,
}
use unlearn_shield.Smt.Reference.{Repr-hash}
use unlearn_shield.Smt.Keys.{
  IsRef, key_of, ref_bytes-IsRef, IsRef-IsKey, In-key_set, key_set, mem-AwayFrom,
}
use unlearn_shield.Smt.Soundness.{CollisionOf, climbed, hashed_along, climb_sound}
use unlearn_shield.Smt.Climbing.{climb_ext}
use unlearn_shield.Smt.Completeness.{find_siblings-Leads}
use unlearn_shield.Smt.Encoding.{read_proof-AreDigests, read_proof-proof_of, sibling_at-rev}
use unlearn_shield.Smt.Trees.{IsTree, tree_of, tree_of-IsTree}

read_target-IsRef : (r : Text) → IsRef r → read_target (str_val r) ≡ some (key_of r)
unfolding read_target value_bytes
read_target-IsRef r h = ground arith

module _ (sha256 : Bytes → Bytes) where
  -- The proof is read as some siblings, and one of the inputs that the verifier hashes with them for
  -- `r` has the digest of another input, which the full tree over `refs` hashes on the way to `r`.
  abbrev pub IsForged : Text → List Text → Value → Type 0
  IsForged r refs proof =
      (s : Siblings) × (read_proof proof ≡ some s)
      × CollisionOf sha256 (climbed sha256 depth_bits 0 (key_of r) s)
          (hashed_along sha256 depth_bits 0 (key_of r) (key_set refs))

  verify_absence-read :
      (r : Text) (proof : Value) (t : Text) (s : Siblings)
      → IsRef r
      → read_proof proof ≡ some s
      → verify_absence sha256 (str_val r) proof (str_val t)
        ≡ bytes_eq t (to_hex (climb sha256 depth_bits 0 (key_of r) s))
  unfolding verify_absence is_text
  verify_absence-read r proof t s h e = rw (read_target-IsRef r h, e, verify_absence)

  verify_absence-unread :
      (r : Text) (proof : Value) (t : Text)
      → IsRef r
      → read_proof proof ≡ none
      → verify_absence sha256 (str_val r) proof (str_val t) ≡ false
  unfolding verify_absence
  verify_absence-unread r proof t h e = rw (read_target-IsRef r h, e, verify_absence)

  -- What a verified proof says: the path of the target, from an empty leaf, ends at the root.
  verify_absence-climb :
      (r : Text) (proof : Value) (t : Text)
      → IsRef r
      → verify_absence sha256 (str_val r) proof (str_val t) ≡ true
      → (s : Siblings) × (read_proof proof ≡ some s)
        × (t ≡ to_hex (climb sha256 depth_bits 0 (key_of r) s))
  verify_absence-climb r proof t h e = elim (Option-cases (read_proof proof)) [
    | inl unread ↦ absurd (cc (verify_absence-unread r proof t h unread))
    | inr (s, found) ↦
        (s, found, bytes_eq-eq t _ (sym (verify_absence-read r proof t s h found) ∙ e))
  ]

module _ (sha256 : Bytes → Bytes) (sized : IsSized sha256) where
  -- Soundness, over any proof whatever: a verified proof that a key of the tree is absent exhibits
  -- two inputs of one digest.
  IsTree-sound :
      (tree : SparseMerkleTree) (r : Text) (proof : Value)
      → IsTree sha256 tree
      → IsRef r
      → In (key_of r) tree.keys
      → verify_absence sha256 (str_val r) proof (str_val (root tree)) ≡ true
      → (s : Siblings) × (read_proof proof ≡ some s)
        × CollisionOf sha256
            (climbed sha256 depth_bits 0 (key_of r) s)
            (hashed_along sha256 depth_bits 0 (key_of r) tree.keys)
  unfolding root
  IsTree-sound tree r proof h ref m e =
      let (s, found, same) = verify_absence-climb sha256 r proof (root tree) ref e in
      let node_eq = to_hex-inj _ _ same in
      (
        s,
        found,
        climb_sound sha256 sized depth_bits 0 (key_of r) s tree.keys
            (read_proof-AreDigests proof s found) m
            (sym node_eq ∙ Repr-hash sha256 tree.root_node depth_bits 0 tree.keys h.represents),
      )

  -- If digests all have 32 entries, of whatever size: a proof that verifies against the root of a set
  -- of 32-byte references, for a member of the set, is read as some siblings, and one of the inputs
  -- that the verifier hashes with them has the digest of another input, which the full tree over the
  -- set hashes on the way to the member.
  pub verify_absence_sound :
      (refs : List Text) (r : Text) (proof : Value)
      → All IsRef refs
      → IsRef r
      → In r refs
      → verify_absence sha256 (str_val r) proof (str_val (root (tree_of sha256 refs))) ≡ true
      → IsForged sha256 r refs proof
  verify_absence_sound refs r proof h ref m e =
      IsTree-sound (tree_of sha256 refs) r proof (tree_of-IsTree sha256 refs h) ref
        (In-key_set r refs m) e

module _ (sha256 : Bytes → Bytes) (digest : IsDigest sha256) where
  -- Completeness: for a reference that the tree does not hold, `prove_absence` returns a proof, and
  -- the proof verifies against the root.
  pub prove_absence-verify :
      (tree : SparseMerkleTree) (r : Text)
      → IsTree sha256 tree
      → IsRef r
      → mem (key_of r) tree.keys ≡ false
      → (proof : Value) × (prove_absence sha256 tree r ≡ ok proof)
        × (verify_absence sha256 (str_val r) proof (str_val (root tree)) ≡ true)
  prove_absence-verify tree r h ref absent =
      let (s, found, inc, up) =
        find_siblings-Leads sha256 digest depth_bits 0 (key_of r) tree.root_node tree.keys ref refl
          h.represents (mem-AwayFrom (key_of r) tree.keys (IsRef-IsKey r ref) h.full absent) in
      (
        proof_of s,
        (unfold prove_absence in rw (ref_bytes-IsRef r ref, absent, found)),
        verify_absence-read sha256 r (proof_of s) (root tree) _ ref (read_proof-proof_of s inc)
            ∙ unfold root in
              rw (climb_ext sha256 depth_bits 0 (key_of r) _ s (λ i _. sibling_at-rev s i inc), up)
                (bytes_eq_refl _),
      )

  -- No proof is made for a reference that the tree holds.
  pub prove_absence-present :
      (tree : SparseMerkleTree) (r : Text)
      → IsRef r
      → mem (key_of r) tree.keys ≡ true
      → prove_absence sha256 tree r ≡ err value_error
  unfolding prove_absence
  prove_absence-present tree r ref present = rw (ref_bytes-IsRef r ref, present)
