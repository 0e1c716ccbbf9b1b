-- ===== src/Engine/Slicer.antt =====
-- engine/slicer.py. The order of np.lexsort, which is by churn and then by subject, is the parameter
-- `before`; a churn score is of any type. Numbers of records are not negative; sums and products of
-- them are those of int64, which wrap around.
use unlearn_shield.Prelude.{
  ℕ, zero, suc, ◌-◌, ◌^◌, Bool, List, [], ◌∷◌, map, leb, ltb, if◌then◌else◌,
}
use unlearn_shield.Prelude.Result.{Result, ok, err, value_error, overflow_error}
use unlearn_shield.Prelude.Sort.{sort_by}
use unlearn_shield.Python.Bytes.{Text}
use unlearn_shield.Python.Value.{ℤ, pos, negsuc}
use unlearn_shield.Python.Int64.{add, mul, floor_div, minimum}

-- One position of the three arrays; `record_count` is a number of int64.
pub record Subject (Churn : Type 0) : Type 0 where
  pub subject_id : Text
  pub churn : Churn
  pub record_count : ℕ

-- `cumulative[-1]`; `seen` is the sum so far.
unfoldable pub total_records : {Churn : Type 0} → ℤ → List (ℕ × Subject Churn) → ℤ
unfolding add
total_records seen [] = seen
total_records seen (x ∷ xs) = total_records (add seen (pos x.1.record_count)) xs

-- `np.minimum(((cumulative - 1) * num_slices) // total, num_slices - 1)`, of one of `cumulative`
unfoldable pub slice_of : ℕ → ℤ → ℤ → ℤ
unfolding add mul floor_div minimum
slice_of num_slices total cumulative =
    minimum (floor_div (mul (add cumulative (negsuc 0)) (pos num_slices)) total)
      (pos (num_slices - 1))

-- `slice_of_ordered`, with the positions and subjects of `order`; `seen` is the sum so far.
unfoldable pub pack :
    {Churn : Type 0} → ℕ → ℤ → ℤ → List (ℕ × Subject Churn) → List ((ℕ × Subject Churn) × ℤ)
unfolding slice_of add
pack num_slices total seen [] = []
pack num_slices total seen (x ∷ xs) =
    let cumulative = add seen (pos x.1.record_count) in
    (x, slice_of num_slices total cumulative) ∷ pack num_slices total cumulative xs

-- The subjects with their positions in the arrays.
unfoldable pub numbered : {Churn : Type 0} → ℕ → List (Subject Churn) → List (ℕ × Subject Churn)
numbered i [] = []
numbered i (x ∷ xs) = (i, x) ∷ numbered (suc i) xs

unfoldable pub by_position :
    {Churn : Type 0} → (ℕ × Subject Churn) × ℤ → (ℕ × Subject Churn) × ℤ → Bool
by_position x y = leb x.0.0 y.0.0

module _ {Churn : Type 0} (before : Subject Churn → Subject Churn → Bool) where
  -- `order`
  unfoldable pub churn_order : List (Subject Churn) → List (ℕ × Subject Churn)
  unfolding numbered
  churn_order subjects =
      sort_by (λ (x : ℕ × Subject Churn) (y : ℕ × Subject Churn). before x.1 y.1)
        (numbered 0 subjects)

  -- `slice_of_ordered`
  unfoldable pub slices_in_order : ℕ → List (Subject Churn) → List ((ℕ × Subject Churn) × ℤ)
  unfolding pack churn_order total_records
  slices_in_order num_slices subjects =
      let order = churn_order subjects in
      pack num_slices (total_records (pos 0) order) (pos 0) order

  -- `assign_slices`; `out[order] = ...` puts each slice at its position. The product with a number
  -- of slices that is not in int64 raises.
  unfoldable pub assign_slices : ℕ → List (Subject Churn) → Result (List ℤ)
  unfolding slices_in_order by_position
  assign_slices zero subjects = err value_error
  assign_slices (suc n) [] = ok []
  assign_slices (suc n) (x ∷ xs) =
      if ltb (suc n) (2 ^ 63)
      then ok (map (λ p. p.1) (sort_by by_position (slices_in_order (suc n) (x ∷ xs))))
      else err overflow_error
