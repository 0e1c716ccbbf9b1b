-- ===== src/Smt/Removal.antt =====
-- `_remove_key` and the loop of `remove` keep the tree in step with the keys that are left.
use unlearn_shield.Prelude.{
  ℕ, zero, suc, ◌≡◌, refl, sym, ap, subst, ◌∙◌, inl, inr, Bool, true, false, not, ◌||◌, List, [],
  ◌∷◌, keep, All, All-map, All-keep_test, In, In-keep, keep-eq_self, keep-keep, keep_both,
  Bool-cases, arith,
}
use unlearn_shield.Prelude.Result.{Result, ok}
use unlearn_shield.Python.Bytes.{Bytes, bytes_eq, bytes_eq_refl, bytes_eq-eq, bytes_eq_iff, mem}
use unlearn_shield.Smt.Hash.{depth_bits, bit, node_hash, default_hash}
use unlearn_shield.Smt.Tree.{
  Node, empty, single, branch, hash, lefts, rights, remove_key, remove_all,
}
use unlearn_shield.Smt.Reference.{Repr}

abbrev pub without : Bytes → List Bytes → List Bytes
without t = keep (λ k. not (bytes_eq k t))

differs :
    (d : ℕ) (t k : Bytes) (b : Bool) → bit t d ≡ b → bit k d ≡ not b → not (bytes_eq k t) ≡ true
differs d t k b p q = elim (Bool-cases (bytes_eq k t)) [
  | inl e ↦ absurd (ground (arith, ap (λ x. bit x d) (bytes_eq-eq k t e)))
  | inr e ↦ rw e
]

not-true : (b : Bool) → not b ≡ true → b ≡ false
not-true b h = ground arith

module _ (d : ℕ) (t : Bytes) (ks : List Bytes) where
  -- Removing a key leaves the other half alone.
  lefts-without : bit t d ≡ true → lefts d ks ≡ lefts d (without t ks)
  unfolding lefts
  lefts-without e =
      sym (
        keep-eq_self _ (lefts d ks) (
          All-map _ _ (lefts d ks) (λ k p. differs d t k true e (not-true (bit k d) p))
            (All-keep_test (λ k. not (bit k d)) ks)))
      ∙ keep-keep _ _ ks

  rights-without : bit t d ≡ false → rights d ks ≡ rights d (without t ks)
  unfolding rights
  rights-without e =
      sym (
        keep-eq_self _ (rights d ks) (
          All-map _ _ (rights d ks) (λ k p. differs d t k false e p)
            (All-keep_test (λ k. bit k d) ks)))
      ∙ keep-keep _ _ ks

  without-lefts : without t (lefts d ks) ≡ lefts d (without t ks)
  unfolding lefts
  without-lefts = keep-keep _ _ ks

  without-rights : without t (rights d ks) ≡ rights d (without t ks)
  unfolding rights
  without-rights = keep-keep _ _ ks

only_key : (t k : Bytes) (ks : List Bytes) → ks ≡ k ∷ [] → In t ks → bytes_eq k t ≡ true
only_key t k ks e m = elim (subst (In t) e m) [ inl q ↦ rw q (bytes_eq_refl k) | inr q ↦ absurd q ]

without-single : (t k : Bytes) → bytes_eq k t ≡ true → without t (k ∷ []) ≡ []
unfolding keep
without-single t k e = rw e

-- What `new_keys` leaves out.
abbrev pub without_all : List Bytes → List Bytes → List Bytes
without_all removed = keep (λ k. not (mem k removed))

without-without_all :
    (t : Bytes) (removed ks : List Bytes)
    → without t (without_all removed ks) ≡ without_all (t ∷ removed) ks
unfolding mem
without-without_all t removed ks =
    keep_both (λ k. not (bytes_eq k t)) (λ k. not (mem k removed)) (λ k. not (mem k (t ∷ removed)))
      ks (λ k. ground arith)

pub without_all-nil : (ks : List Bytes) → without_all [] ks ≡ ks
unfolding keep mem
without_all-nil [] = refl
without_all-nil (k ∷ ks) = ap (◌∷◌ k) (without_all-nil ks)

module _ (sha256 : Bytes → Bytes) where
  abbrev Removed : ℕ → ℕ → List Bytes → Result Node → Type 0
  Removed n d ks result = (node : Node) × (result ≡ ok node) × Repr sha256 node n d ks

  module _ (n d : ℕ) (t h : Bytes) (x y new : Node) where
    remove_right :
        bit t d ≡ true
        → remove_key sha256 n (suc d) y t ≡ ok new
        → remove_key sha256 (suc n) d (branch h x y) t
          ≡ ok (branch (node_hash sha256 (hash x) (hash new)) x new)
    unfolding remove_key
    remove_right e f = rw (e, f)

    remove_left :
        bit t d ≡ false
        → remove_key sha256 n (suc d) x t ≡ ok new
        → remove_key sha256 (suc n) d (branch h x y) t
          ≡ ok (branch (node_hash sha256 (hash new) (hash y)) new y)
    unfolding remove_key
    remove_left e f = rw (e, f)

  remove_single :
      (n d : ℕ) (t h k : Bytes)
      → bytes_eq k t ≡ true
      → remove_key sha256 n d (single h k) t ≡ ok (empty (default_hash sha256 n))
  unfolding remove_key
  remove_single n d t h k e = rw e

  -- `_remove_key` succeeds at a member, and its node represents the other keys.
  pub remove_key-Repr :
      (node : Node) (n d : ℕ) (t : Bytes) (ks : List Bytes)
      → Repr sha256 node n d ks
      → In t ks
      → Removed n d (without t ks) (remove_key sha256 n d node t)
  remove_key-Repr (empty h) n d t ks r m = absurd (subst (In t) r.0 m)
  remove_key-Repr (single h k) n d t ks r m =
      let e = only_key t k ks r.0 m in
      (_, remove_single n d t h k e, (rw r.0 (without-single t k e), refl))
  remove_key-Repr (branch h x y) zero d t ks r m = absurd r
  remove_key-Repr (branch h x y) (suc n) d t ks r m = elim (Bool-cases (bit t d)) [
    | inl right ↦
        let (new, f, r') =
          remove_key-Repr y n (suc d) t (rights d ks) r.1
            (unfold rights in In-keep _ t ks m right) in
        (
          _,
          remove_right n d t h x y new right f,
          (
            subst (Repr sha256 x n (suc d)) (lefts-without d t ks right) r.0,
            subst (Repr sha256 new n (suc d)) (without-rights d t ks) r',
            refl,
          ),
        )
    | inr left ↦
        let (new, f, r') =
          remove_key-Repr x n (suc d) t (lefts d ks) r.0
            (unfold lefts in In-keep _ t ks m (rw left)) in
        (
          _,
          remove_left n d t h x y new left f,
          (
            subst (Repr sha256 new n (suc d)) (without-lefts d t ks) r',
            subst (Repr sha256 y n (suc d)) (rights-without d t ks left) r.1,
            refl,
          ),
        )
  ]

  -- What the loop over the targets returns.
  abbrev pub Emptied : List Bytes → List Bytes → List Bytes → Result (Node × List Bytes) → Type 0
  Emptied removed targets ks result =
      (done : Node × List Bytes) × (result ≡ ok done)
      × Repr sha256 done.0 depth_bits 0 (without_all done.1 ks)
      × ((k : Bytes) → mem k done.1 ≡ (mem k removed || mem k targets))

  module _ (node : Node) (removed ts : List Bytes) (t : Bytes) where
    remove_all_again :
        mem t removed ≡ true
        → remove_all sha256 node removed (t ∷ ts) ≡ remove_all sha256 node removed ts
    unfolding remove_all
    remove_all_again e = rw e

    remove_all_first :
        (new : Node)
        → mem t removed ≡ false
        → remove_key sha256 depth_bits 0 node t ≡ ok new
        → remove_all sha256 node removed (t ∷ ts) ≡ remove_all sha256 new (t ∷ removed) ts
    unfolding remove_all
    remove_all_first new e f = rw (e, f)

    mem_again :
        mem t removed ≡ true
        → (k : Bytes) → (mem k removed || mem k ts) ≡ (mem k removed || mem k (t ∷ ts))
    unfolding mem
    mem_again e k = ground (arith, bytes_eq_iff k t)

    mem_first : (k : Bytes) → (mem k (t ∷ removed) || mem k ts) ≡ (mem k removed || mem k (t ∷ ts))
    unfolding mem
    mem_first k = ground arith

  -- The loop succeeds on members, and removes the targets and no other key.
  pub remove_all-Repr :
      (node : Node) (removed targets ks : List Bytes)
      → Repr sha256 node depth_bits 0 (without_all removed ks)
      → All (λ t. In t ks) targets
      → Emptied removed targets ks (remove_all sha256 node removed targets)
  remove_all-Repr node removed [] ks r m =
      ((node, removed), unfold remove_all in refl, r, λ k. unfold mem in ground arith)
  remove_all-Repr node removed (t ∷ ts) ks r m = elim (Bool-cases (mem t removed)) [
    | inl again ↦
        let (done, f, r', h) = remove_all-Repr node removed ts ks r m.1 in
        (
          done,
          remove_all_again node removed ts t again ∙ f,
          r',
          λ k. h k ∙ mem_again node removed ts t again k,
        )
    | inr first ↦
        let (new, f, r') =
          remove_key-Repr node depth_bits 0 t (without_all removed ks) r
            (In-keep (λ k. not (mem k removed)) t ks m.0 (rw first)) in
        let (done, g, r'', h) =
          remove_all-Repr new (t ∷ removed) ts ks (rw (without-without_all t removed ks) at r')
            m.1 in
        (
          done,
          remove_all_first node removed ts t new first f ∙ g,
          r'',
          λ k. h k ∙ mem_first node removed ts t k,
        )
  ]
