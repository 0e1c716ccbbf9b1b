-- ===== src/Engine/Batch.antt =====
-- A batch of distinct subjects of one shard: its routing entries, found and popped.
use unlearn_shield.Prelude.{
  ℕ, ◌<◌, ◌≡◌, refl, sym, ap, ◌∙◌, inl, inr, true, false, not, List, [], ◌∷◌, all, keep, keep_both,
  keep-eq_self, All, All-map, All-zip, ◌==◌, Bool-cases, arith,
}
use unlearn_shield.Prelude.Result.{ok, map_result}
use unlearn_shield.Python.Bytes.{Text, mem, bytes_eq, bytes_eq_refl, bytes_eq-eq}
use unlearn_shield.Engine.Store.{Entry, Routing, entry_of, pop_entry, pop_entries}
use unlearn_shield.Engine.Purge.{batch_of, min_slice_of}
use unlearn_shield.Engine.Retained.{Distinct}

-- The reference is routed to the shard, at a slice that there is.
abbrev pub IsRouted : ℕ → ℕ → Routing → Text → Type 0
IsRouted num_slices shard routing ref =
    (e : Entry) × (entry_of routing ref ≡ ok e) × (e.shard ≡ shard) × (e.min_slice_idx < num_slices)

abbrev IsEntry : ℕ → ℕ → Entry → Type 0
IsEntry num_slices shard e = (e.shard ≡ shard) × (e.min_slice_idx < num_slices)

entries-ok :
    (num_slices shard : ℕ) (routing : Routing) (refs : List Text)
    → All (IsRouted num_slices shard routing) refs
    → (es : List Entry) × (map_result (entry_of routing) refs ≡ ok es)
      × All (IsEntry num_slices shard) es
unfolding map_result
entries-ok num_slices shard routing [] h = ([], refl, tt)
entries-ok num_slices shard routing (ref ∷ refs) h =
    let (es, f, k) = entries-ok num_slices shard routing refs h.1 in
    let (e, found, same, lt) = h.0 in (e ∷ es, rw (found, f) refl, ((same, lt), k))

min_slice_of_lt :
    (num_slices shard : ℕ) (e : Entry) (es : List Entry)
    → All (IsEntry num_slices shard) (e ∷ es)
    → min_slice_of e es < num_slices
unfolding min_slice_of
min_slice_of_lt num_slices shard e [] h = h.0.1
min_slice_of_lt num_slices shard e (f ∷ es) h =
    ground (arith, min_slice_of_lt num_slices shard f es h.1, h.0.1)

all_same :
    (num_slices shard : ℕ) (es : List Entry)
    → All (IsEntry num_slices shard) es
    → all (λ (f : Entry). f.shard == shard) es ≡ true
unfolding all
all_same num_slices shard [] h = refl
all_same num_slices shard (e ∷ es) h = rw (h.0.0, all_same num_slices shard es h.1) (ground arith)

batch_of-IsEntry :
    (num_slices shard : ℕ) (e : Entry) (es : List Entry)
    → All (IsEntry num_slices shard) (e ∷ es)
    → batch_of (e ∷ es) ≡ ok (shard, min_slice_of e es)
unfolding batch_of
batch_of-IsEntry num_slices shard e es h = rw (h.0.0, all_same num_slices shard es h.1) refl

-- The entries of a batch are found, and give its shard and a slice that there is.
pub batch-ok :
    (num_slices shard : ℕ) (routing : Routing) (ref : Text) (refs : List Text)
    → All (IsRouted num_slices shard routing) (ref ∷ refs)
    → (es : List Entry) × (min_slice : ℕ) × (map_result (entry_of routing) (ref ∷ refs) ≡ ok es)
      × (batch_of es ≡ ok (shard, min_slice))
      × (min_slice < num_slices)
unfolding map_result
batch-ok num_slices shard routing ref refs h =
    let (es, f, k) = entries-ok num_slices shard routing refs h.1 in
    let (e, found, same, lt) = h.0 in
    (
      e ∷ es,
      min_slice_of e es,
      rw (found, f) refl,
      batch_of-IsEntry num_slices shard e es ((same, lt), k),
      min_slice_of_lt num_slices shard e es ((same, lt), k),
    )

-- The routing table without the entries of some references.
abbrev pub without_entries : List Text → Routing → Routing
without_entries refs = keep (λ e. not (mem e.0 refs))

pub entry_of-pop_entry :
    (routing : Routing) (a b : Text)
    → bytes_eq a b ≡ false
    → entry_of (pop_entry routing a) b ≡ entry_of routing b
unfolding entry_of pop_entry keep
entry_of-pop_entry [] a b differ = refl
entry_of-pop_entry ((r, e) ∷ rest) a b differ = elim (Bool-cases (bytes_eq r a)) [
  | inl t ↦ elim (Bool-cases (bytes_eq r b)) [
    | inl u ↦ absurd (cc (bytes_eq-eq _ _ t, bytes_eq-eq _ _ u, differ, bytes_eq_refl a))
    | inr u ↦ rw (t, u) (entry_of-pop_entry rest a b differ)
  ]
  | inr t ↦ elim (Bool-cases (bytes_eq r b)) [
    | inl u ↦ rw (t, u) refl
    | inr u ↦ rw (t, u) (entry_of-pop_entry rest a b differ)
  ]
]

without-pop_entry :
    (a : Text) (refs : List Text) (routing : Routing)
    → without_entries refs (pop_entry routing a) ≡ without_entries (a ∷ refs) routing
unfolding pop_entry mem
without-pop_entry a refs routing =
    keep_both _ _ (λ e. not (mem e.0 (a ∷ refs))) routing (λ e. ground arith)

abbrev IsThere : Routing → Text → Type 0
IsThere routing ref = (e : Entry) × (entry_of routing ref ≡ ok e)

everyone :
    {P : Text × Entry → Type 0} (routing : Routing) → ((e : Text × Entry) → P e) → All P routing
everyone [] h = tt
everyone (e ∷ routing) h = (h e, everyone routing h)

-- Popping distinct references that are there succeeds, and leaves the other entries in their order.
pub pop_entries-ok :
    (routing : Routing) (refs : List Text)
    → All (IsThere routing) refs
    → Distinct refs
    → pop_entries routing refs ≡ ok (without_entries refs routing)
unfolding pop_entries mem
pop_entries-ok routing [] h d =
    ap ok (sym (keep-eq_self (λ e. not (mem e.0 [])) routing (everyone routing λ e. refl)))
pop_entries-ok routing (a ∷ refs) h d =
    let later =
      All-map _ (IsThere (pop_entry routing a)) refs
        (λ b q. (q.1.0, entry_of-pop_entry routing a b q.0 ∙ q.1.1)) (All-zip _ _ refs d.0 h.1) in
    rw (h.0.1, pop_entries)
      (pop_entries-ok (pop_entry routing a) refs later d.1
        ∙ ap ok (without-pop_entry a refs routing))
