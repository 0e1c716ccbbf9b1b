-- ===== src/Smt/Incremental.antt =====
-- Incremental removal gives the tree that a rebuild over the remaining references would give.
use unlearn_shield.Prelude.{
  ◌≡◌, refl, sym, ap, subst, ◌∙◌, inl, inr, Bool, true, false, not, ◌||◌, List, [], ◌∷◌, map, keep,
  all, All, All-In, All-keep, All-keep_test, Pairs-keep, In, In-keep, keep-In, keep_congr,
  Bool-cases, arith,
}
use unlearn_shield.Prelude.Result.{ok, err, value_error}
use unlearn_shield.Python.Bytes.{Bytes, Text, mem, In-mem, mem-In}
use unlearn_shield.Python.Value.{Value, str_val}
use unlearn_shield.Python.Sorting.{Before, IsAscending-eq, sorted_set-In, In-sorted_set}
use unlearn_shield.Smt.Hash.{IsDigest, depth_bits}
use unlearn_shield.Smt.Tree.{SparseMerkleTree, remove, root}
use unlearn_shield.Smt.Proof.{prove_absence, verify_absence}
use unlearn_shield.Python.Hex.{to_hex}
use unlearn_shield.Smt.Reference.{reference}
use unlearn_shield.Smt.Keys.{IsRef, IsKey, key_of, key_set, key_set-IsAscending, map_result-IsRef}
use unlearn_shield.Smt.Removal.{without_all, without_all-nil, remove_all-Repr}
use unlearn_shield.Smt.Trees.{IsTree, tree_of, tree_of-IsTree, root-reference}
use unlearn_shield.Smt.Absence.{prove_absence-verify}

-- The references whose key is not one of the targets'.
abbrev pub remaining : List Text → List Text → List Text
remaining targets = keep (λ r. not (mem (key_of r) (map key_of targets)))

abbrev pub AllHeld : SparseMerkleTree → List Text → Type 0
AllHeld tree = All (λ r. In (key_of r) tree.keys)

held-keys :
    (ks : List Bytes) (rs : List Text)
    → All (λ r. In (key_of r) ks) rs
    → All (λ t. In t ks) (map key_of rs)
held-keys ks [] h = tt
held-keys ks (r ∷ rs) h = (h.0, held-keys ks rs h.1)

all-mem : (ks ts : List Bytes) → All (λ t. In t ks) ts → all (λ t. mem t ks) ts ≡ true
unfolding all
all-mem ks [] h = refl
all-mem ks (t ∷ ts) h = rw (In-mem t ks h.0, all-mem ks ts h.1)

not-all-mem :
    (ks : List Bytes) (t : Bytes) (ts : List Bytes)
    → In t ts
    → mem t ks ≡ false
    → all (λ t. mem t ks) ts ≡ false
unfolding all
not-all-mem ks t [] m h = absurd m
not-all-mem ks t (u ∷ ts) (inl e) h = rw (subst (λ x. mem x ks ≡ false) e h)
not-all-mem ks t (u ∷ ts) (inr m) h = ground (arith, not-all-mem ks t ts m h)

map-keep :
    (p : Bytes → Bool) (rs : List Text)
    → map key_of (keep (λ r. p (key_of r)) rs) ≡ keep p (map key_of rs)
unfolding keep
map-keep p [] = refl
map-keep p (r ∷ rs) = elim (Bool-cases (p (key_of r))) [
  | inl e ↦ rw e (ap (◌∷◌ (key_of r)) (map-keep p rs))
  | inr e ↦ rw e (map-keep p rs)
]

-- Filtering the set of keys is filtering the references.
pub key_set-keep :
    (p : Bytes → Bool) (refs : List Text)
    → keep p (key_set refs) ≡ key_set (keep (λ r. p (key_of r)) refs)
unfolding key_set
key_set-keep p refs =
    IsAscending-eq _ _ (Pairs-keep Before p (key_set refs) (key_set-IsAscending refs))
      (key_set-IsAscending (keep (λ r. p (key_of r)) refs))
      (λ a m. In-sorted_set a _ (
        rw (map-keep p refs) (
          In-keep p a (map key_of refs) (sorted_set-In a _ (keep-In p a _ m))
            (All-In (λ x. p x ≡ true) a _ (All-keep_test p (key_set refs)) m))))
      (λ a m.
        let m' = rw (map-keep p refs) at (sorted_set-In a _ m) in
        In-keep p a _ (In-sorted_set a _ (keep-In p a _ m'))
          (All-In (λ x. p x ≡ true) a _ (All-keep_test p (map key_of refs)) m'))

pub mem-without_all : (ts ks : List Bytes) (t : Bytes) → In t ts → mem t (without_all ts ks) ≡ false
mem-without_all ts ks t m = elim (Bool-cases (mem t (without_all ts ks))) [
  | inl e ↦ absurd (
      cc (
        All-In (λ x. not (mem x ts) ≡ true) t _ (All-keep_test (λ x. not (mem x ts)) ks)
            (mem-In t _ e),
        In-mem t ts m,
      ))
  | inr e ↦ e
]

pub In-key_of : (r : Text) (rs : List Text) → In r rs → In (key_of r) (map key_of rs)
In-key_of r [] m = absurd m
In-key_of r (s ∷ rs) (inl e) = inl (ap key_of e)
In-key_of r (s ∷ rs) (inr m) = inr (In-key_of r rs m)

forall-All : {P : Bytes → Type 0} (ks : List Bytes) → ((k : Bytes) → P k) → All P ks
forall-All [] h = tt
forall-All (k ∷ ks) h = (h k, forall-All ks h)

mem-nil-or : (k : Bytes) (ts : List Bytes) → (mem k [] || mem k ts) ≡ mem k ts
unfolding mem
mem-nil-or k ts = refl

module _ (sha256 : Bytes → Bytes) where
  -- `remove` of held references succeeds; the keys that are left are those of no target.
  pub remove-IsTree :
      (tree : SparseMerkleTree) (targets : List Text)
      → IsTree sha256 tree
      → All IsRef targets
      → AllHeld tree targets
      → (tree' : SparseMerkleTree) × (remove sha256 tree targets ≡ ok tree')
        × IsTree sha256 tree'
        × (tree'.keys ≡ without_all (map key_of targets) tree.keys)
  unfolding remove
  remove-IsTree tree targets h refs held =
      let ts = map key_of targets in
      let (done, f, r, hm) =
        remove_all-Repr sha256 tree.root_node [] ts tree.keys
          (rw (without_all-nil tree.keys) h.represents) (held-keys tree.keys targets held) in
      (
        record { keys = without_all done.1 tree.keys; root_node = done.0 },
        rw (
          map_result-IsRef targets refs,
          all-mem tree.keys ts (held-keys tree.keys targets held),
          f,
        ),
        record {
          full = All-keep IsKey _ tree.keys h.full;
          ascending = Pairs-keep Before _ tree.keys h.ascending;
          represents = r;
        },
        keep_congr _ _ tree.keys (forall-All tree.keys λ k. ap not (hm k ∙ mem-nil-or k ts)),
      )

  -- `remove` of any reference that is not held raises.
  pub remove-missing :
      (tree : SparseMerkleTree) (targets : List Text) (r : Text)
      → All IsRef targets
      → In r targets
      → mem (key_of r) tree.keys ≡ false
      → remove sha256 tree targets ≡ err value_error
  unfolding remove
  remove-missing tree targets r refs m absent = rw (
    map_result-IsRef targets refs,
    not-all-mem tree.keys (key_of r) (map key_of targets) (In-key_of r targets m) absent,
  )

  -- Deleting references from a tree over `refs` publishes the root that a tree built from scratch
  -- over the remaining references publishes.
  pub remove-rebuild :
      (refs targets : List Text)
      → All IsRef refs
      → All IsRef targets
      → AllHeld (tree_of sha256 refs) targets
      → (tree' : SparseMerkleTree) × (remove sha256 (tree_of sha256 refs) targets ≡ ok tree')
        × (tree'.keys ≡ key_set (remaining targets refs))
        × (root tree' ≡ root (tree_of sha256 (remaining targets refs)))
  remove-rebuild refs targets h ht held =
      let (tree', f, w, e) =
        remove-IsTree (tree_of sha256 refs) targets (tree_of-IsTree sha256 refs h) ht held in
      let keys_eq = e ∙ key_set-keep (λ k. not (mem k (map key_of targets))) refs in
      let rest = tree_of-IsTree sha256 (remaining targets refs) (All-keep IsRef _ refs h) in
      (
        tree',
        f,
        keys_eq,
        root-reference sha256 tree' w
            ∙ ap (λ ks. to_hex (reference sha256 depth_bits 0 ks)) keys_eq
            ∙ sym (root-reference sha256 (tree_of sha256 (remaining targets refs)) rest),
      )

module _ (sha256 : Bytes → Bytes) (digest : IsDigest sha256) where
  -- After `remove`, every removed reference has an absence proof that verifies against the new root.
  pub remove-proves :
      (tree : SparseMerkleTree) (targets : List Text) (r : Text)
      → IsTree sha256 tree
      → All IsRef targets
      → AllHeld tree targets
      → In r targets
      → (tree' : SparseMerkleTree) × (proof : Value) × (remove sha256 tree targets ≡ ok tree')
        × (prove_absence sha256 tree' r ≡ ok proof)
        × (verify_absence sha256 (str_val r) proof (str_val (root tree')) ≡ true)
  remove-proves tree targets r h ht held m =
      let (tree', f, w, e) = remove-IsTree sha256 tree targets h ht held in
      let absent : mem (key_of r) tree'.keys ≡ false =
        rw e (mem-without_all (map key_of targets) tree.keys (key_of r) (In-key_of r targets m)) in
      let (proof, made, verified) =
        prove_absence-verify sha256 digest tree' r w (All-In IsRef r targets ht m) absent in
      (tree', proof, f, made, verified)
