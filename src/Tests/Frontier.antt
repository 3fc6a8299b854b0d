-- ===== src/Tests/Frontier.antt =====
-- The Pareto frontier of two options with scores in ℕ.
use aimesh.Base.{
  ℕ, ◌≡◌, ◌↔◌, refl, String, Bool, true, false, ◌&&◌, List, [], ◌∷◌, ltb, arith, String_comparable,
  ◌==◌, if◌then◌else◌,
}
use aimesh.Base.Order.{IsWeakOrder}
use aimesh.Base.Sets.{contains}
use aimesh.Govern.Frontier.{
  CompareCriterion, higher_is_better, lower_is_better, dimension, dominates,
}
use aimesh.Govern.Frontier.Undominated.{
  frontier, IsCovered, pareto_frontier_covers, pareto_frontier_iff,
}

ltb_order : IsWeakOrder ltb
ltb_order = record { asym = λ a b h. ground (arith, h); chain = λ a b c h k. ground (arith, h, k) }

abbrev dims : List (CompareCriterion ℕ)
dims =
    record { name = "speed"; direction = higher_is_better; role = dimension; weight = 0 }
    ∷ record { name = "cost"; direction = lower_is_better; role = dimension; weight = 0 }
    ∷ []

abbrev points : String → String → ℕ
points option criterion = if option == "redis" && criterion == "speed" then 9 else 3

abbrev split : String → String → Bool
split option criterion = false

abbrev options : List String
options = "redis" ∷ "sqlite" ∷ []

pareto_frontier_covers_example : IsCovered ltb ltb_order dims points split options "sqlite"
pareto_frontier_covers_example =
    pareto_frontier_covers ltb ltb_order dims points split options "sqlite" refl

pareto_frontier_iff_example :
    (contains (frontier ltb ltb_order dims points split options) "redis" ≡ true) ↔ (
      (contains options "redis" ≡ true)
      × ((x : String)
          → contains options x ≡ true
          → dominates ltb dims points split x "redis" ≡ false))
pareto_frontier_iff_example = pareto_frontier_iff ltb ltb_order dims points split options "redis"
