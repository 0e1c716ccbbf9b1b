-- ===== src/Examples/SliceRuns.antt =====
-- engine/slicer.py on three subjects with five records and two slices.
use unlearn_shield.Prelude.{ℕ, ◌≡◌, refl, Bool, List, [], ◌∷◌, length, leb, arith, All, Pairs}
use unlearn_shield.Prelude.Result.{ok}
use unlearn_shield.Prelude.Sort.{IsOrder, sort_by, insert_sorted}
use unlearn_shield.Python.Value.{ℤ, pos, negsuc}
use unlearn_shield.Python.Int64.{signed, bits, add, mul, floor_div, less, minimum}
use unlearn_shield.Engine.Slicer.{
  Subject, slice_of, pack, total_records, numbered, by_position, churn_order, slices_in_order,
  assign_slices,
}
use unlearn_shield.Engine.Slices.{IsBelow, Ascends, assign_slices-IsBelow, slices_in_order-Ascends}

abbrev subjects : List (Subject ℕ)
subjects =
    (record { subject_id = 7 ∷ []; churn = 90; record_count = 2 })
    ∷ (record { subject_id = 8 ∷ []; churn = 10; record_count = 1 })
    ∷ (record { subject_id = 9 ∷ []; churn = 50; record_count = 2 })
    ∷ []

abbrev before : Subject ℕ → Subject ℕ → Bool
before x y = leb x.churn y.churn

before-IsOrder : IsOrder before
before-IsOrder = record {
  trans = λ x y z p q. ground (arith, p, q);
  total = λ x y p. ground (arith, p);
}

packs_two : assign_slices before 2 subjects ≡ ok (pos 1 ∷ pos 0 ∷ pos 0 ∷ [])
unfolding assign_slices slices_in_order churn_order pack slice_of total_records numbered by_position
    sort_by insert_sorted add mul floor_div minimum less signed bits
packs_two = refl

-- Products that wrap around: the sum of the records is 2^62, and five times that is not in int64.
packs_large :
    assign_slices before 5 (
      (record { subject_id = 7 ∷ []; churn = 1; record_count = 2305843009213693952 })
      ∷ (record { subject_id = 8 ∷ []; churn = 2; record_count = 2305843009213693952 })
      ∷ [])
    ≡ ok (negsuc 1 ∷ pos 0 ∷ [])
unfolding assign_slices slices_in_order churn_order pack slice_of total_records numbered by_position
    sort_by insert_sorted add mul floor_div minimum less signed bits
packs_large = refl

assign_slices-IsBelow_example :
    (out : List ℤ) × (assign_slices before 2 subjects ≡ ok out)
    × (length out ≡ length subjects)
    × All (IsBelow 2) out
assign_slices-IsBelow_example =
    assign_slices-IsBelow before 2 subjects (omega arith) (omega arith)
      (omega arith, (omega arith, (omega arith, tt)))

slices_in_order-Ascends_example : Pairs (Ascends before) (slices_in_order before 2 subjects)
slices_in_order-Ascends_example =
    slices_in_order-Ascends before 2 subjects before-IsOrder (omega arith) (omega arith)
      (omega arith)
