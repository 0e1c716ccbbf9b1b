-- ===== src/Examples/ShardRuns.antt =====
-- engine/sharder.py on two subjects, with a hash that gives back the text.
use unlearn_shield.Prelude.{ℕ, ◌≡◌, Bool, List, [], ◌∷◌, leb, arith}
use unlearn_shield.Prelude.Result.{ok}
use unlearn_shield.Python.Bytes.{Text}
use unlearn_shield.Engine.Sharder.{assign_all, AllPlaced, assign_all-AllPlaced}

-- A score of 90 and one of 10.
abbrev subjects : List (Text × ℕ)
subjects = (7 ∷ [], 90) ∷ (8 ∷ [], 10) ∷ []

abbrev at_least : ℕ → ℕ → Bool
at_least score threshold = leb threshold score

assign_all-AllPlaced_example :
    (shards : List ℕ) × (assign_all (λ b. b) at_least 5 2 50 subjects ≡ ok shards)
    × AllPlaced (λ b. b) at_least 5 2 50 subjects shards
assign_all-AllPlaced_example =
    assign_all-AllPlaced (λ b. b) at_least 5 2 50 (omega arith) (omega arith) subjects
