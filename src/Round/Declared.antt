-- ===== src/Round/Declared.antt =====
-- How many rounds a run has.
use aimesh.Base.{ℕ, ◌≤◌, ◌<◌, ◌≡◌, ◌↔◌, arith}
use aimesh.Base.Int.{ℤ, pos, negsuc}
use aimesh.Base.Outcome.{ok, err}
use aimesh.Round.{max_rounds, count}

-- A declared number is refused exactly if it is above the most that a run may have, and the number of
-- rounds of a run that is not refused is between one and that most.
pub count_bounds :
    (declared : ℤ)
    → ((n : ℕ) → (count declared ≡ err n) ↔ ((declared ≡ pos n) × (max_rounds < n)))
      × ((n : ℕ) → count declared ≡ ok n → (1 ≤ n) × (n ≤ max_rounds))
unfolding count
count_bounds (pos d) = ((λ n. ground arith), λ n e. ground arith)
count_bounds (negsuc d) = ((λ n. ground arith), λ n e. ground arith)
