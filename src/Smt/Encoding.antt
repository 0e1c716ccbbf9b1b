-- ===== src/Smt/Encoding.antt =====
-- The verifier reads back, from the dict of a proof, the siblings that the prover put into it.
use unlearn_shield.Prelude.{
  ℕ, suc, ◌<◌, ◌≡◌, refl, subst, ◌∙◌, inl, inr, [], ◌∷◌, Option, none, some, length, Bool-cases,
  Option-cases, arith, lt→ltb,
}
use unlearn_shield.Python.Bytes.{Bytes, codes, bytes_eq}
use unlearn_shield.Python.Hex.{to_hex, from_hex-to_hex}
use unlearn_shield.Python.Value.{
  Key, int_key, Value, str_val, dict_val, pos, Fields, end, field, get, value_bytes, key_int,
}
use unlearn_shield.Smt.Hash.{depth_bits}
use unlearn_shield.Smt.Proof.{
  Siblings, sibling_at, sibling_fields, proof_of, is_text, read_sibling, read_siblings, read_dict,
  read_raw, if_scheme, read_proof,
}
use unlearn_shield.Smt.Keys.{IsKey}
use unlearn_shield.Smt.Soundness.{AreDigests}
use unlearn_shield.Smt.Climbing.{Increasing, sibling_at_below}

read_sibling-length :
    (k : Key) (v : Value) (s : ℕ × Bytes) → read_sibling k v ≡ some s → length s.1 ≡ 32
unfolding read_sibling
read_sibling-length k v s e = ground arith

AreDigests? : Option Siblings → Type 0
AreDigests? none = Unit
AreDigests? (some s) = AreDigests s

read_siblings-AreDigests :
    (found : Siblings) (raw : Fields) → AreDigests found → AreDigests? (read_siblings found raw)
unfolding read_siblings AreDigests?
read_siblings-AreDigests found end h = h
read_siblings-AreDigests found (field k v rest) h = elim (Option-cases (read_sibling k v)) [
  | inl e ↦ rw (e, AreDigests?) tt
  | inr (s, e) ↦
      rw (e, AreDigests?)
        (read_siblings-AreDigests (s ∷ found) rest (read_sibling-length k v s e, h))
]

read_dict-AreDigests : (v : Value) → AreDigests? (read_dict v)
unfolding read_dict AreDigests?
read_dict-AreDigests (dict_val raw) = read_siblings-AreDigests [] raw tt
read_dict-AreDigests _ = tt

read_raw-AreDigests : (o : Option Value) → AreDigests? (read_raw o)
unfolding read_raw AreDigests?
read_raw-AreDigests none = tt
read_raw-AreDigests (some raw) = read_dict-AreDigests raw

if_scheme-AreDigests :
    (o : Option Value) (r : Option Siblings) → AreDigests? r → AreDigests? (if_scheme o r)
unfolding if_scheme AreDigests?
if_scheme-AreDigests none r h = tt
if_scheme-AreDigests (some scheme) r h = elim (Bool-cases (is_text scheme (codes "smt-256"))) [
  | inl e ↦ rw (e, AreDigests?) h
  | inr e ↦ rw (e, AreDigests?) tt
]

read_proof-AreDigests? : (v : Value) → AreDigests? (read_proof v)
unfolding read_proof AreDigests?
read_proof-AreDigests? (dict_val proof) =
    if_scheme-AreDigests (get proof (codes "scheme")) _
      (read_raw-AreDigests (get proof (codes "siblings")))
read_proof-AreDigests? _ = tt

-- Whatever the proof, the siblings that are read are as long as a digest.
pub read_proof-AreDigests : (v : Value) (s : Siblings) → read_proof v ≡ some s → AreDigests s
read_proof-AreDigests v s e = unfold AreDigests? in subst AreDigests? e (read_proof-AreDigests? v)

-- The prover's entry for a sibling is read back.
read_sibling-entry :
    (d : ℕ) (h : Bytes)
    → d < depth_bits
    → IsKey h
    → read_sibling (int_key (pos d)) (str_val (to_hex h)) ≡ some (d, h)
unfolding read_sibling key_int value_bytes
read_sibling-entry d h p k = rw (lt→ltb d depth_bits p, from_hex-to_hex h k.1, k.0)

pub rev_onto : Siblings → Siblings → Siblings
rev_onto found [] = found
rev_onto found ((d, h) ∷ rest) = rev_onto ((d, h) ∷ found) rest

read_siblings-sibling_fields :
    (lo : ℕ) (found s : Siblings)
    → Increasing lo s
    → read_siblings found (sibling_fields s) ≡ some (rev_onto found s)
unfolding read_siblings sibling_fields rev_onto
read_siblings-sibling_fields lo found [] h = refl
read_siblings-sibling_fields lo found ((d, o) ∷ rest) (_, small, key, more) =
    rw (read_sibling-entry d o small key, read_siblings)
      (read_siblings-sibling_fields (suc d) ((d, o) ∷ found) rest more)

-- Depths are distinct, so that the order does not matter.
sibling_at-rev_onto :
    (lo : ℕ) (found s : Siblings) (i : ℕ)
    → Increasing lo s
    → sibling_at i (rev_onto found s)
      ≡ elim (sibling_at i s) [ none ↦ sibling_at i found | some h ↦ some h ]
unfolding rev_onto sibling_at
sibling_at-rev_onto lo found [] i h = refl
sibling_at-rev_onto lo found ((d, o) ∷ rest) i h = ground (
  arith,
  sibling_at-rev_onto (suc d) ((d, o) ∷ found) rest i h.3,
  sibling_at_below i (suc d) rest,
)

pub sibling_at-rev :
    (s : Siblings) (i : ℕ) → Increasing 0 s → sibling_at i (rev_onto [] s) ≡ sibling_at i s
sibling_at-rev s i h = sibling_at-rev_onto 0 [] s i h ∙ unfold sibling_at in ground arith

pub read_proof-proof_of :
    (s : Siblings) → Increasing 0 s → read_proof (proof_of s) ≡ some (rev_onto [] s)
unfolding read_proof proof_of get is_text bytes_eq
read_proof-proof_of s h = read_siblings-sibling_fields 0 [] s h
