-- ===== src/Merkle/Commit.antt =====
-- The published root of verify/merkle.py binds the number of leaves and the tree hash.
use unlearn_shield.Prelude.{
  ℕ, zero, suc, ◌*◌, ◌/◌, ◌%◌, ◌^◌, ◌<◌, ◌≡◌, refl, sym, subst, ◌∙◌, ◌⊎◌, inl, inr, [], ◌∷◌, ◌++◌,
  length, length-append, ltb, ltb→lt, Bool-cases, arith,
}
use native.Mathlib.Numerals.{unary_clauses}
use unlearn_shield.Prelude.Result.{ok, Result-cases, ok_injective}
use unlearn_shield.Python.Bytes.{Bytes, Text}
use unlearn_shield.Python.Hex.{to_hex-inj}
use unlearn_shield.Smt.Soundness.{append_inj_of_length}
use unlearn_shield.Merkle.Soundness.{SecondPreimage, preimage-cases}
use unlearn_shield.Merkle.Tree.{big_endian, to_bytes, commit}

length-big_endian : (count n : ℕ) → length (big_endian count n) ≡ count
unfolding big_endian
length-big_endian zero n = refl
length-big_endian (suc count) n = omega (
  arith,
  length-append (big_endian count (n / 256)) (n % 256 ∷ []),
  length-big_endian count (n / 256),
)

big_endian-inj :
    (count n m : ℕ)
    → n < 256 ^ count
    → m < 256 ^ count
    → big_endian count n ≡ big_endian count m
    → n ≡ m
unfolding big_endian
big_endian-inj zero n m h k e = omega (arith, h, k)
big_endian-inj (suc count) n m h k e =
    let (p, q) =
      append_inj_of_length (big_endian count (n / 256)) _ (big_endian count (m / 256)) _
        (length-big_endian count (n / 256) ∙ sym (length-big_endian count (m / 256))) e in
    let low : n % 256 ≡ m % 256 = cc q in
    let power : 256 ^ suc count ≡ 256 * 256 ^ count = simp unary_clauses (omega arith) in
    let high =
      big_endian-inj count (n / 256) (m / 256) (omega (arith, power)) (omega (arith, power)) p in
    omega (arith, low, high)

to_bytes-inj :
    (n m : ℕ) (a b : Bytes)
    → to_bytes n ≡ ok a
    → to_bytes m ≡ ok b
    → (length a ≡ 8) × (length b ≡ 8) × (a ≡ b → n ≡ m)
unfolding to_bytes
to_bytes-inj n m a b e f = elim (Bool-cases (ltb n (2 ^ 64))) [
  | inr large ↦ absurd (cc (rw large at e))
  | inl small ↦ elim (Bool-cases (ltb m (2 ^ 64))) [
    | inr large ↦ absurd (cc (rw large at f))
    | inl small' ↦
        let p = ok_injective (rw small at e) in
        let q = ok_injective (rw small' at f) in
        (
          subst (λ x. length x ≡ 8) p (length-big_endian 8 n),
          subst (λ x. length x ≡ 8) q (length-big_endian 8 m),
          λ same.
              big_endian-inj 8 n m (ltb→lt n (2 ^ 64) small) (ltb→lt m (2 ^ 64) small')
                (p ∙ same ∙ sym q),
        )
  ]
]

module _ (sha256 : Bytes → Bytes) where
  -- Equal published roots are of equal sizes and hashes, or the input of the first has the digest
  -- of that of the second.
  pub commit-inj :
      (n m : ℕ) (a b : Bytes) (t : Text)
      → commit sha256 n a ≡ ok t
      → commit sha256 m b ≡ ok t
      → ((n ≡ m) × (a ≡ b))
        ⊎ SecondPreimage sha256
            (λ y. (size : Bytes) × (to_bytes m ≡ ok size) × (y ≡ 2 ∷ (size ++ b)))
  unfolding commit
  commit-inj n m a b t e f = elim (Result-cases (to_bytes n)) [
    | inl (x, g) ↦ absurd (cc (rw g at e))
    | inr (c, g) ↦ elim (Result-cases (to_bytes m)) [
      | inl (x, h) ↦ absurd (cc (rw h at f))
      | inr (d, h) ↦
          let (size, size', inj) = to_bytes-inj n m c d g h in
          let same = ok_injective (rw g at e) ∙ sym (ok_injective (rw h at f)) in
          elim (preimage-cases sha256
            (λ y. (size : Bytes) × (to_bytes m ≡ ok size) × (y ≡ 2 ∷ (size ++ b))) (2 ∷ (c ++ a))
            (2 ∷ (d ++ b)) (d, h, refl) (to_hex-inj _ _ same)) [
              | inr collision ↦ inr collision
              | inl input ↦
                  let whole : c ++ a ≡ d ++ b = cc input in
                  let (p, q) = append_inj_of_length c a d b (size ∙ sym size') whole in
                  inl (inj p, q)
            ]
    ]
  ]
