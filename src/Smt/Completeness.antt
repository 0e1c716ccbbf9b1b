-- ===== src/Smt/Completeness.antt =====
-- The siblings that `prove_absence` collects lead from an empty leaf to the root.
use unlearn_shield.Prelude.{
  ℕ, zero, suc, ◌+◌, ◌<◌, ◌≡◌, refl, sym, ap₂, ◌∙◌, inl, inr, Bool, true, false, not, List, [], ◌∷◌,
  length, Bool-cases, arith,
}
use unlearn_shield.Prelude.Result.{Result, ok}
use unlearn_shield.Python.Bytes.{Bytes, bytes_eq, bytes_eq-eq}
use unlearn_shield.Smt.Hash.{IsDigest, depth_bits, bit, node_hash, default_hash, singleton_root}
use unlearn_shield.Smt.Tree.{Node, empty, single, branch, hash, lefts, rights}
use unlearn_shield.Smt.Proof.{
  Siblings, sibling_or, has_bit, diverge, record_sibling, find_siblings, climb,
}
use unlearn_shield.Smt.Reference.{agree, AwayFrom, AwayFrom-lefts, AwayFrom-rights, Repr}
use unlearn_shield.Smt.Keys.{IsKey}
use unlearn_shield.Smt.Climbing.{
  Increasing, Increasing-weaken, sibling_at_below, climb_right, climb_left, climb-nil, climb_skip,
  sibling_or-none, sibling_or_here,
}
use unlearn_shield.Smt.Digests.{singleton_root-IsKey, Repr-IsKey}

module _ (sha256 : Bytes → Bytes) (digest : IsDigest sha256) where
  -- What the search returns, for a subtree with the hash `goal`.
  abbrev Leads : ℕ → ℕ → Bytes → Bytes → Result Siblings → Type 0
  Leads n d t goal found =
      (s : Siblings) × (found ≡ ok s) × Increasing d s × (climb sha256 n d t s ≡ goal)

  module _ (n d : ℕ) (t : Bytes) (s : Siblings) (o g : Bytes) where
    up_right :
        bit t d ≡ true
        → sibling_or sha256 n d s ≡ o
        → climb sha256 n (suc d) t s ≡ g
        → climb sha256 (suc n) d t s ≡ node_hash sha256 o g
    up_right e p q = climb_right sha256 n d t s e ∙ ap₂ (node_hash sha256) p q

    up_left :
        bit t d ≡ false
        → sibling_or sha256 n d s ≡ o
        → climb sha256 n (suc d) t s ≡ g
        → climb sha256 (suc n) d t s ≡ node_hash sha256 g o
    up_left e p q = climb_left sha256 n d t s e ∙ ap₂ (node_hash sha256) q p

  quiet :
      (n d : ℕ) (s : Siblings)
      → Increasing (suc d) s
      → sibling_or sha256 n d s ≡ default_hash sha256 n
  quiet n d s h = sibling_or-none sha256 n d s (sibling_at_below d (suc d) s (omega arith) h)

  singleton_right :
      (n d : ℕ) (k : Bytes)
      → bit k d ≡ true
      → singleton_root sha256 (suc n) d k
        ≡ node_hash sha256 (default_hash sha256 n) (singleton_root sha256 n (suc d) k)
  unfolding singleton_root
  singleton_right n d k e = rw e

  singleton_left :
      (n d : ℕ) (k : Bytes)
      → bit k d ≡ false
      → singleton_root sha256 (suc n) d k
        ≡ node_hash sha256 (singleton_root sha256 n (suc d) k) (default_hash sha256 n)
  unfolding singleton_root
  singleton_left n d k e = rw e

  has_bit_lem : (t : Bytes) (d : ℕ) → length t ≡ 32 → d < depth_bits → has_bit t d ≡ true
  unfolding has_bit
  has_bit_lem t d l h = ground arith

  module _ (n d : ℕ) (t k : Bytes) (readable : has_bit t d ≡ true) where
    diverge_same :
        (b : Bool)
        → bit t d ≡ b
        → bit k d ≡ b
        → diverge sha256 (suc n) d t k ≡ diverge sha256 n (suc d) t k
    unfolding diverge
    diverge_same b p q = ground arith

    diverge_differ :
        (b : Bool)
        → bit t d ≡ b
        → bit k d ≡ not b
        → diverge sha256 (suc n) d t k ≡ ok ((d, singleton_root sha256 n (suc d) k) ∷ [])
    unfolding diverge
    diverge_differ b p q = ground arith

  agree_same :
      (n d : ℕ) (t k : Bytes) (b : Bool)
      → bit t d ≡ b
      → bit k d ≡ b
      → agree (suc n) d t k ≡ false
      → agree n (suc d) t k ≡ false
  unfolding agree
  agree_same n d t k b p q h = ground arith

  single_sibling :
      (n d : ℕ) (k : Bytes)
      → d < depth_bits
      → Increasing d ((d, singleton_root sha256 n (suc d) k) ∷ [])
  single_sibling n d k h = (omega arith, h, singleton_root-IsKey sha256 digest n (suc d) k, tt)

  below_single :
      (n d : ℕ) (t k : Bytes)
      → climb sha256 n (suc d) t ((d, singleton_root sha256 n (suc d) k) ∷ [])
        ≡ default_hash sha256 n
  below_single n d t k =
      climb_skip sha256 n (suc d) d t _ [] (omega arith) ∙ climb-nil sha256 n (suc d) t

  diverge-Leads :
      (n d : ℕ) (t k : Bytes)
      → length t ≡ 32
      → d + n ≡ depth_bits
      → agree n d t k ≡ false
      → Leads n d t (singleton_root sha256 n d k) (diverge sha256 n d t k)
  diverge-Leads zero d t k l w h = unfold agree in cc
  diverge-Leads (suc n) d t k l w h =
      let further = diverge-Leads n (suc d) t k l (omega arith) in
      let readable = has_bit_lem t d l (omega arith) in
      let here = single_sibling n d k (omega arith) in
      elim (Bool-cases (bit t d)) [
        | inl tr ↦ elim (Bool-cases (bit k d)) [
          | inl kr ↦
              let (s, f, inc, c) = further (agree_same n d t k true tr kr h) in
              (
                s,
                diverge_same n d t k readable true tr kr ∙ f,
                Increasing-weaken d s inc,
                up_right n d t s _ _ tr (quiet n d s inc) c ∙ sym (singleton_right n d k kr),
              )
          | inr kl ↦ (
            _,
            diverge_differ n d t k readable true tr kl,
            here,
            up_right n d t _ _ _ tr (sibling_or_here sha256 n d _ []) (below_single n d t k)
                ∙ sym (singleton_left n d k kl),
          )
        ]
        | inr tl ↦ elim (Bool-cases (bit k d)) [
          | inl kr ↦ (
            _,
            diverge_differ n d t k readable false tl kr,
            here,
            up_left n d t _ _ _ tl (sibling_or_here sha256 n d _ []) (below_single n d t k)
                ∙ sym (singleton_right n d k kr),
          )
          | inr kl ↦
              let (s, f, inc, c) = further (agree_same n d t k false tl kl h) in
              (
                s,
                diverge_same n d t k readable false tl kl ∙ f,
                Increasing-weaken d s inc,
                up_left n d t s _ _ tl (quiet n d s inc) c ∙ sym (singleton_left n d k kl),
              )
        ]
      ]

  module _ (n d : ℕ) (o : Bytes) (s : Siblings) where
    record_same : bytes_eq o (default_hash sha256 n) ≡ true → record_sibling sha256 n d o s ≡ s
    unfolding record_sibling
    record_same e = rw e

    record_differ :
        bytes_eq o (default_hash sha256 n) ≡ false → record_sibling sha256 n d o s ≡ (d, o) ∷ s
    unfolding record_sibling
    record_differ e = rw e

  -- Recording a sibling, or leaving it out as empty.
  record_sibling-Leads :
      (n d : ℕ) (t o : Bytes) (s : Siblings)
      → d < depth_bits
      → IsKey o
      → Increasing (suc d) s
      → (sibling_or sha256 n d (record_sibling sha256 n d o s) ≡ o)
        × Increasing d (record_sibling sha256 n d o s)
        × (climb sha256 n (suc d) t (record_sibling sha256 n d o s) ≡ climb sha256 n (suc d) t s)
  record_sibling-Leads n d t o s h k inc = elim (Bool-cases (bytes_eq o (default_hash sha256 n))) [
    | inl same ↦ rw (record_same n d o s same) (
      quiet n d s inc ∙ sym (bytes_eq-eq o (default_hash sha256 n) same),
      Increasing-weaken d s inc,
      refl,
    )
    | inr differ ↦ rw (record_differ n d o s differ) (
      sibling_or_here sha256 n d o s,
      (omega arith, h, k, inc),
      climb_skip sha256 n (suc d) d t o s (omega arith),
    )
  ]

  module _ (n d : ℕ) (t h : Bytes) (x y : Node) (s : Siblings) (readable : has_bit t d ≡ true) where
    find_right :
        bit t d ≡ true
        → find_siblings sha256 n (suc d) t y ≡ ok s
        → find_siblings sha256 (suc n) d t (branch h x y)
          ≡ ok (record_sibling sha256 n d (hash x) s)
    unfolding find_siblings
    find_right e f = rw (readable, e, f)

    find_left :
        bit t d ≡ false
        → find_siblings sha256 n (suc d) t x ≡ ok s
        → find_siblings sha256 (suc n) d t (branch h x y)
          ≡ ok (record_sibling sha256 n d (hash y) s)
    unfolding find_siblings
    find_left e f = rw (readable, e, f)

  -- The search succeeds for an absent target, and its siblings lead to the subtree's hash.
  pub find_siblings-Leads :
      (n d : ℕ) (t : Bytes) (node : Node) (ks : List Bytes)
      → length t ≡ 32
      → d + n ≡ depth_bits
      → Repr sha256 node n d ks
      → AwayFrom n d t ks
      → Leads n d t (hash node) (find_siblings sha256 n d t node)
  find_siblings-Leads n d t (empty h) ks l w r away =
      unfold find_siblings in ([], refl, tt, climb-nil sha256 n d t ∙ sym r.1)
  find_siblings-Leads n d t (single h k) ks l w r away =
      let (s, f, inc, c) = diverge-Leads n d t k l w ((rw r.0 at away).0) in
      (s, (unfold find_siblings in f), inc, c ∙ sym r.1)
  find_siblings-Leads zero d t (branch h x y) ks l w r away = absurd r
  find_siblings-Leads (suc n) d t (branch h x y) ks l w r away =
      let readable = has_bit_lem t d l (omega arith) in
      elim (Bool-cases (bit t d)) [
        | inl right ↦
            let (s, f, inc, c) =
              find_siblings-Leads n (suc d) t y (rights d ks) l (omega arith) r.1
                (AwayFrom-rights n d t ks right away) in
            let (o, inc', c') =
              record_sibling-Leads n d t (hash x) s (omega arith)
                (Repr-IsKey sha256 digest x n (suc d) (lefts d ks) r.0) inc in
            (
              _,
              find_right n d t h x y s readable right f,
              inc',
              up_right n d t _ _ _ right o (c' ∙ c) ∙ sym r.2,
            )
        | inr left ↦
            let (s, f, inc, c) =
              find_siblings-Leads n (suc d) t x (lefts d ks) l (omega arith) r.0
                (AwayFrom-lefts n d t ks left away) in
            let (o, inc', c') =
              record_sibling-Leads n d t (hash y) s (omega arith)
                (Repr-IsKey sha256 digest y n (suc d) (rights d ks) r.1) inc in
            (
              _,
              find_left n d t h x y s readable left f,
              inc',
              up_left n d t _ _ _ left o (c' ∙ c) ∙ sym r.2,
            )
      ]
