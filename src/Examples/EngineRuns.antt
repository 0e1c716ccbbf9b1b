-- ===== src/Examples/EngineRuns.antt =====
-- engine/rebuild.py on a shard with the rows of two subjects.
use unlearn_shield.Prelude.{
  keep, map, In, ◌==◌, ℕ, ◌+◌, ◌<◌, ◌≡◌, refl, sym, ◌∙◌, inl, inr, false, List, [], ◌∷◌, some,
  arith, suc, zero,
}
use unlearn_shield.Prelude.Result.{Exc, ok, err}
use unlearn_shield.Python.Bytes.{Text, mem, bytes_eq, bytes_eq_refl}
use unlearn_shield.Python.Hex.{from_hex, hex_digit, digit_value, is_space, byte_then}
use unlearn_shield.Smt.Keys.{key_of}
use unlearn_shield.Smt.Tree.{SparseMerkleTree}
use unlearn_shield.Smt.Cache.{cached}
use unlearn_shield.Engine.Store.{Row, Entry, Store, entry_of, load_shard, load_checkpoint}
use unlearn_shield.Engine.Train.{Trainer}
use unlearn_shield.Engine.Rebuild.{Context, rebuild_batch_by_ref}
use unlearn_shield.Engine.Manifests.{IsCanonical}
use unlearn_shield.Engine.Erasure.{IsReady, IsErased, rebuild_batch-IsErased}
use unlearn_shield.Engine.Retraining.{IsFittable}
use unlearn_shield.Engine.Retained.{retained}
use unlearn_shield.Engine.Unfitted.{IsUnfitted, rebuild_batch-IsUnfitted}
use unlearn_shield.Engine.Failure.{rebuild_batch_repeated}
use unlearn_shield.Examples.Hashes.{mixing, mixing-IsDigest, ref}
use unlearn_shield.Examples.SmtRuns.{ref-1, ref-2}

-- A network of one weight, which counts the rows it has seen.
abbrev trainer : Trainer ℕ ℕ ℕ ℕ
trainer = record {
  fit = λ rows. 0;
  build_model = λ seed. seed;
  load_state_dict = λ saved model. ok saved;
  train_rows = λ seed preproc rows model. model + seed;
  state_dict = λ model. model;
  state_dict_digest = λ saved. saved ∷ [];
}

abbrev pub context : Context
context = record {
  num_slices = 2;
  seed = 42;
  code_digest = [];
  config_digest = [];
  purged_at = [];
  completed_at = [];
  sign_manifest = some (λ m. ok (1 ∷ []));
}

abbrev rows : List (Row ℕ)
rows =
    record { subject_ref = ref 1; slice_idx = 0; columns = 10 }
    ∷ record { subject_ref = ref 2; slice_idx = 1; columns = 20 }
    ∷ []

abbrev entry : ℕ → Entry
entry slice_idx = record { tenant_id = []; shard = 3; min_slice_idx = slice_idx; record_count = 1 }

abbrev store : Store ℕ ℕ ℕ
store = record {
  routing = (ref 1, entry 0) ∷ (ref 2, entry 1) ∷ [];
  shards = (3, rows) ∷ [];
  checkpoints = ((3, 0), 7) ∷ [];
  preprocs = [];
  cache = [];
}

keys_differ : bytes_eq (key_of (ref 1)) (key_of (ref 2)) ≡ false
unfolding ref from_hex hex_digit digit_value is_space byte_then bytes_eq
keys_differ = refl

pub rows-IsCanonical : IsCanonical (ref 1 ∷ ref 2 ∷ [])
rows-IsCanonical a b (inl e) (inl f) same = e ∙ sym f
rows-IsCanonical a b (inl e) (inr (inl f)) same =
    absurd (cc (keys_differ, e, f, same, bytes_eq_refl (key_of b)))
rows-IsCanonical a b (inr (inl e)) (inl f) same =
    absurd (cc (keys_differ, e, f, same, bytes_eq_refl (key_of a)))
rows-IsCanonical a b (inr (inl e)) (inr (inl f)) same = e ∙ sym f
rows-IsCanonical a b (inr (inr m)) q same = absurd m
rows-IsCanonical a b (inl e) (inr (inr m)) same = absurd m
rows-IsCanonical a b (inr (inl e)) (inr (inr m)) same = absurd m

routed_second : entry_of store.routing (ref 2) ≡ ok (entry 1)
unfolding entry_of ref bytes_eq hex_digit
routed_second = refl

resumes :
    (i : ℕ)
    → suc i < 2
    → (saved : ℕ) × (model : ℕ) × (load_checkpoint store.checkpoints 3 i ≡ ok saved)
      × (ok saved ≡ ok model)
unfolding load_checkpoint
resumes zero lt = (7, 7, refl, refl)
resumes (suc i) lt = absurd (omega arith)

no_entry : (tree : SparseMerkleTree) → cached 3 store.cache ≡ some tree → ⊥
unfolding cached
no_entry tree e = cc

stays : IsFittable trainer (retained (ref 2 ∷ []) rows)
unfolding retained mem bytes_eq ref keep hex_digit
stays = omega arith

ready :
    (r : Text) (i : ℕ)
    → i < 2
    → entry_of store.routing r ≡ ok (entry i)
    → In r (map (λ (x : Row ℕ). x.subject_ref) rows)
    → IsReady trainer mixing context store 3 rows (r ∷ [])
unfolding load_shard load_checkpoint
ready r i lt routed m = record {
  there = refl;
  routed = ((entry i, routed, refl, lt), tt);
  held = (m, tt);
  distinct = (tt, tt);
  references = (ref-1, (ref-2, tt));
  canonical = rows-IsCanonical;
  caches = tt;
  faithful = λ tree e _. absurd (no_entry tree e);
  resumable = resumes;
  signer = λ m. (1 ∷ [], refl);
}

rebuild_batch-IsErased_example :
    IsErased trainer mixing context store 3 rows
      (ref 2 ∷ [])
      (rebuild_batch_by_ref trainer mixing context store (ref 2 ∷ []))
rebuild_batch-IsErased_example =
    rebuild_batch-IsErased trainer mixing context mixing-IsDigest store 3 rows (ref 2) []
      (ready (ref 2) 1 (omega arith) routed_second (inr (inl refl))) stays

rebuild_batch_repeated_example :
    (e : Exc) × (rebuild_batch_by_ref trainer mixing context store (ref 2 ∷ ref 2 ∷ [])
      ≡ (store, err e))
rebuild_batch_repeated_example =
    rebuild_batch_repeated trainer mixing context store (ref 2) (ref 2 ∷ []) (inl refl)

-- The batch of the only subject of slice 0.
routed_first : entry_of store.routing (ref 1) ≡ ok (entry 0)
unfolding entry_of ref bytes_eq hex_digit
routed_first = refl

none_left : keep (λ (r : Row ℕ). r.slice_idx == 0) (retained (ref 1 ∷ []) rows) ≡ []
unfolding retained mem bytes_eq ref keep hex_digit
none_left = refl

rebuild_batch-IsUnfitted_example :
    IsUnfitted trainer mixing context store 3 rows
      (ref 1 ∷ [])
      (rebuild_batch_by_ref trainer mixing context store (ref 1 ∷ []))
rebuild_batch-IsUnfitted_example =
    rebuild_batch-IsUnfitted trainer mixing context store 3 rows (ref 1) []
      (ready (ref 1) 0 (omega arith) routed_first (inl refl)) none_left
