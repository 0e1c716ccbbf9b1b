-- ===== src/Examples/PromoteRuns.antt =====
-- worker/jobs.py's `_promote` with a query that returns the first of the latest rows.
use unlearn_shield.Prelude.{
  ◌≤◌, ◌≡◌, refl, subst, ◌∙◌, inl, inr, false, List, [], ◌∷◌, ◌++◌, Option, none, some, take, leb,
  leb→le, All, All-map, In, if◌then◌else◌, Option-cases, Bool-cases, arith,
}
use unlearn_shield.Python.Bytes.{Text, codes, bytes_eq}
use unlearn_shield.Engine.Rebuild.{decimal}
use unlearn_shield.Worker.Promote.{
  Version, Registry, IsLatest, promote, hash_of, carried, version_taken, promote_carries,
}

later_of : Version → Option Version → Version
later_of v none = v
later_of v (some w) = if leb w.promoted_at v.promoted_at then v else w

newest : List Version → Option Version
unfolding later_of
newest [] = none
newest (v ∷ vs) = some (later_of v (newest vs))

newest-holds : (vs : List Version) (w : Version) → newest vs ≡ some w → In w vs
unfolding newest
newest-holds [] w e = cc
newest-holds (v ∷ vs) w e = elim (Option-cases (newest vs)) [
  | inl n ↦ inl (cc (rw n at e))
  | inr (u, n) ↦ elim (Bool-cases (leb u.promoted_at v.promoted_at)) [
    | inl t ↦ inl (cc (rw t at (rw n at e)))
    | inr t ↦ inr (newest-holds vs w (n ∙ rw t at (rw n at e)))
  ]
]

newest-none : (vs : List Version) → newest vs ≡ none → vs ≡ []
unfolding newest
newest-none [] e = refl
newest-none (v ∷ vs) e = cc

-- Every row is at most as late as the given one.
abbrev AtMost : List Version → Version → Type 0
AtMost vs w = All (λ (v : Version). v.promoted_at ≤ w.promoted_at) vs

newest-AtMost : (vs : List Version) (w : Version) → newest vs ≡ some w → AtMost vs w
unfolding newest
newest-AtMost [] w e = tt
newest-AtMost (v ∷ vs) w e = elim (Option-cases (newest vs)) [
  | inl n ↦
      let same : v ≡ w = cc (rw n at e) in
      subst (AtMost (v ∷ vs)) same (rw (newest-none vs n) (omega arith, tt))
  | inr (u, n) ↦ elim (Bool-cases (leb u.promoted_at v.promoted_at)) [
    | inl t ↦
        let same : v ≡ w = cc (rw t at (rw n at e)) in
        subst (AtMost (v ∷ vs)) same (
          omega arith,
          All-map (λ (x : Version). x.promoted_at ≤ u.promoted_at)
              (λ (x : Version). x.promoted_at ≤ v.promoted_at) vs
              (λ x le. omega (arith, le, leb→le _ _ t)) (newest-AtMost vs u n),
        )
    | inr t ↦
        let same : u ≡ w = cc (rw t at (rw n at e)) in
        subst (AtMost (v ∷ vs)) same (ground (arith, t), newest-AtMost vs u n)
  ]
]

newest-IsLatest : IsLatest newest
unfolding newest
newest-IsLatest = record {
  finds = λ v vs. (later_of v (newest vs), refl);
  holds = newest-holds;
  greatest = newest-AtMost;
}

-- Shard 0 and shard 1 have been promoted before.
abbrev registry : Registry
registry = record {
  checkpoints = [];
  versions =
      record {
        model_version = codes "v-old";
        shard_checkpoints = (codes "1", codes "bb") ∷ (codes "0", codes "aa") ∷ [];
        eval_set_version = codes "v0";
        promoted_at = 3;
      }
      ∷ [];
}

free_name : version_taken (codes "v-" ++ take 12 (codes "cc")) registry.versions ≡ false
unfolding version_taken bytes_eq
free_name = refl

promote_carries_example :
    (v : Version) × (newest (promote newest 8 4 [] 0 (codes "cc") (codes "p") registry).versions
      ≡ some v)
    × (hash_of (decimal 0) v.shard_checkpoints ≡ some (codes "cc"))
    × ((key : Text)
        → bytes_eq (decimal 0) key ≡ false
        → hash_of key v.shard_checkpoints ≡ hash_of key (carried (newest registry.versions)))
promote_carries_example =
    promote_carries newest 8 4 [] (codes "p") 0 (codes "cc") registry newest-IsLatest
      (omega arith, tt) free_name
