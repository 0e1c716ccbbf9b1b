-- ===== src/Examples/GbdtRuns.antt =====
-- engine/gbdt.py on a shard with the rows of two subjects.
use unlearn_shield.Prelude.{
  ℕ, zero, suc, ◌+◌, ◌≤◌, ◌≡◌, refl, sym, subst, ◌∙◌, keep, inl, inr, false, List, [], ◌∷◌, ◌++◌,
  Option, none, some, length, All, all, not, arith,
}
use unlearn_shield.Prelude.Result.{Result, ok, err, index_error, ◌>>=◌, map_result, ok_injective}
use unlearn_shield.Python.Bytes.{bytes_eq, mem}
use unlearn_shield.Python.Hex.{hex_digit}
use unlearn_shield.Smt.Tree.{SparseMerkleTree}
use unlearn_shield.Smt.Cache.{cached}
use unlearn_shield.Engine.Store.{Row, Entry, entry_of, load_shard}
use unlearn_shield.Gbdt.Boost.{Columns, Xgb, matrix, train_shard, retained_rows, rebuild_booster}
use unlearn_shield.Gbdt.Exact.{IsBoosting, IsFrom, rebuild_booster_exact}
use unlearn_shield.Gbdt.Rebuild.{Store, load_booster, rebuild_batch_by_ref, replay_digest}
use unlearn_shield.Gbdt.Replay.{rebuild_batch-replay}
use unlearn_shield.Gbdt.Erasure.{IsShard, IsReady, IsErased, rebuild_batch_by_ref-IsErased}
use unlearn_shield.Gbdt.Failure.{IsLost, rebuild_batch_by_ref-IsLost}
use unlearn_shield.Gbdt.Build.{build, IsBuilt, build-IsBuilt}
use unlearn_shield.Examples.Hashes.{mixing, mixing-IsDigest, ref}
use unlearn_shield.Examples.SmtRuns.{ref-1, ref-2}
use unlearn_shield.Examples.EngineRuns.{context, rows-IsCanonical}

-- A booster is the number of rows that each of its rounds has seen.
rounds_of : ℕ → ℕ → List ℕ
rounds_of zero rows = []
rounds_of (suc n) rows = rows ∷ rounds_of n rows

first : ℕ → List ℕ → Result (List ℕ)
first zero b = ok []
first (suc n) [] = err index_error
first (suc n) (x ∷ b) = do rest ← first n b; ok (x ∷ rest)

first_all : (b : List ℕ) → first (length b) b ≡ ok b
unfolding first
first_all [] = refl
first_all (x ∷ b) = rw (first_all b) refl

first_kept : (k : ℕ) (b more : List ℕ) → k ≤ length b → first k (b ++ more) ≡ first k b
unfolding first
first_kept zero b more le = refl
first_kept (suc k) [] more le = absurd (omega arith)
first_kept (suc k) (x ∷ b) more le = rw (first_kept k b more (omega arith)) refl

length_rounds : (n rows : ℕ) → length (rounds_of n rows) ≡ n
unfolding rounds_of
length_rounds zero rows = refl
length_rounds (suc n) rows = omega (arith, length_rounds n rows)

length_more : (b more : List ℕ) → length (b ++ more) ≡ length b + length more
length_more [] more = omega arith
length_more (x ∷ b) more = omega (arith, length_more b more)

train : List (List ℕ × ℕ) → ℕ → Option (List ℕ) → List ℕ
unfolding rounds_of
train m n none = rounds_of n (length m)
train m n (some b) = b ++ rounds_of n (length m)

abbrev xgb : Xgb ℕ (List ℕ)
xgb = record {
  zero_float = 0;
  one_float = 1;
  to_float32 = λ x. x;
  train = train;
  slice = λ b n. first n b;
  predict = λ b rows. [];
  save_raw = λ b. b;
}

laws : IsBoosting xgb
unfolding train
laws = record {
  rounds = length;
  fresh = λ m n. length_rounds n (length m);
  grown =
      λ m n b. omega (arith, length_more b (rounds_of n (length m)), length_rounds n (length m));
  whole = λ b lt. first_all b;
  kept = λ m n b k lt le. first_kept k b _ le;
}

abbrev rows : List (Row (Columns ℕ))
rows =
    record {
      subject_ref = ref 1;
      slice_idx = 0;
      columns = record { numeric = 10 ∷ []; type_idx = 0; is_fraud = 0 };
    }
    ∷ record {
      subject_ref = ref 2;
      slice_idx = 1;
      columns = record { numeric = 20 ∷ []; type_idx = 4; is_fraud = 1 };
    }
    ∷ []

abbrev entry : ℕ → Entry
entry slice_idx = record { tenant_id = []; shard = 3; min_slice_idx = slice_idx; record_count = 1 }

abbrev store : Store ℕ (List ℕ)
store = record {
  routing = (ref 1, entry 0) ∷ (ref 2, entry 1) ∷ [];
  shards = (3, rows) ∷ [];
  boosters = (3, 1 ∷ 1 ∷ 2 ∷ 2 ∷ []) ∷ [];
  cache = [];
}

trained : train_shard xgb 2 2 rows 0 none ≡ ok (some (1 ∷ 1 ∷ 2 ∷ 2 ∷ []))
unfolding train_shard train rounds_of matrix map_result keep
trained = refl

routed-1 : entry_of store.routing (ref 1) ≡ ok (entry 0)
unfolding entry_of ref bytes_eq hex_digit
routed-1 = refl

routed-2 : entry_of store.routing (ref 2) ≡ ok (entry 1)
unfolding entry_of ref bytes_eq hex_digit
routed-2 = refl

at_most : {n : ℕ} {d e : Entry} → d ≡ e → d.min_slice_idx ≤ n → e.min_slice_idx ≤ n
at_most {n} same le = subst (λ e. e.min_slice_idx ≤ n) same le

sound : IsShard xgb mixing context 2 store 3 rows
unfolding load_shard load_booster
sound = record {
  there = refl;
  booster = _;
  loaded = refl;
  trained = trained;
  typed = (omega arith, (omega arith, tt));
  sliced = (
    λ e found. at_most (ok_injective (sym routed-1 ∙ found)) (omega arith),
    (λ e found. at_most (ok_injective (sym routed-2 ∙ found)) (omega arith), tt),
  );
  references = (ref-1, (ref-2, tt));
  canonical = rows-IsCanonical;
  caches = tt;
}

no_tree : (tree : SparseMerkleTree) → cached 3 store.cache ≡ some tree → ⊥
unfolding cached
no_tree tree e = cc

ready : IsReady xgb mixing context 2 store 3 rows (ref 2 ∷ [])
ready = record {
  routed = ((entry 1, routed-2, refl, omega arith), tt);
  held = (inr (inl refl), tt);
  faithful = λ tree e _. absurd (no_tree tree e);
  signer = λ m. (1 ∷ [], refl);
}

rebuild_batch_by_ref-IsErased_example :
    IsErased xgb mixing context 2 store 3 rows
      (ref 2 ∷ [])
      (rebuild_batch_by_ref xgb mixing context 2 store (ref 2 ∷ []))
rebuild_batch_by_ref-IsErased_example =
    rebuild_batch_by_ref-IsErased xgb mixing context 2 laws (omega arith) mixing-IsDigest store 3
      rows (ref 2) [] sound ready (tt, tt)

repeated : IsReady xgb mixing context 2 store 3 rows (ref 2 ∷ ref 2 ∷ [])
repeated = record {
  routed = ((entry 1, routed-2, refl, omega arith), ((entry 1, routed-2, refl, omega arith), tt));
  held = (inr (inl refl), (inr (inl refl), tt));
  faithful = λ tree e _. absurd (no_tree tree e);
  signer = λ m. (1 ∷ [], refl);
}

rebuild_batch_by_ref-IsLost_example :
    IsLost xgb mixing context 2 store 3 rows
      (ref 2 ∷ ref 2 ∷ [])
      (rebuild_batch_by_ref xgb mixing context 2 store (ref 2 ∷ ref 2 ∷ []))
rebuild_batch_by_ref-IsLost_example =
    rebuild_batch_by_ref-IsLost xgb mixing context 2 laws (omega arith) mixing-IsDigest store 3 rows
      (ref 2) (ref 2 ∷ []) sound repeated (inl refl)

not_first : mem (ref 1) (ref 2 ∷ []) ≡ false
unfolding ref bytes_eq hex_digit mem
not_first = refl

from : IsFrom xgb 1 (ref 2 ∷ []) rows
from = (λ e. absurd (cc (e, not_first)), (λ e. omega arith, tt))

some_held : all (λ (r : Row (Columns ℕ)). not (mem r.subject_ref (ref 2 ∷ []))) rows ≡ false
unfolding all ref bytes_eq hex_digit mem
some_held = refl

rebuild_booster_exact_example : rebuild_booster xgb 2 2 (ref 2 ∷ []) rows 1 (1 ∷ 1 ∷ 2 ∷ 2 ∷ []) ≡ (
    train_shard xgb 2 2 (retained_rows (ref 2 ∷ []) rows) 0 none >>= λ rebuilt.
    ok (rebuilt, retained_rows (ref 2 ∷ []) rows))
rebuild_booster_exact_example =
    rebuild_booster_exact xgb laws 2 2 (omega arith) (ref 2 ∷ []) rows 1 (1 ∷ 1 ∷ 2 ∷ 2 ∷ [])
      (omega arith) from trained some_held

build-IsBuilt_example :
    ((build xgb mixing context 2 store store.routing).1 ≡ ok tt)
    × ((build xgb mixing context 2 store store.routing).0.shards ≡ store.shards)
    × All
        (λ e.
          IsBuilt xgb mixing context 2 (build xgb mixing context 2 store store.routing).0 e.1.shard)
        store.routing
build-IsBuilt_example =
    build-IsBuilt xgb mixing context 2 store store.routing (omega arith)
      ((rows, sound.there, sound.typed), ((rows, sound.there, sound.typed), tt))

run :
    IsErased xgb mixing context 2 store 3 rows
      (ref 2 ∷ [])
      (rebuild_batch_by_ref xgb mixing context 2 store (ref 2 ∷ []))
run =
    rebuild_batch_by_ref-IsErased xgb mixing context 2 laws (omega arith) mixing-IsDigest store 3
      rows (ref 2) [] sound ready (tt, tt)

rebuild_batch-replay_example :
    replay_digest xgb mixing context 2 run.rebuilt ≡ ok run.rebuilt.result_weights
rebuild_batch-replay_example =
    rebuild_batch-replay xgb mixing context 2 store (ref 2 ∷ []) run.rebuilt run.returns
