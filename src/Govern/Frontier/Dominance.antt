-- ===== src/Govern/Frontier/Dominance.antt =====
-- The laws of dominance in `paretoFrontier` (fixedspace.go).
use aimesh.Base.{
  ◌≡◌, refl, String, Bool, true, false, ◌||◌, List, [], ◌∷◌, arith, String_comparable,
}
use aimesh.Base.Order.{IsWeakOrder}
use aimesh.Govern.Frontier.{
  Direction, lower_is_better, higher_is_better, other_direction, CompareCriterion, better,
  at_least_as_good, dominates_from, dominates,
}

module _ {S : Type 0} (less : S → S → Bool) (order : IsWeakOrder less) where
  -- One dimension: at least as good is transitive, and better if one step is.
  good_chain :
      (d : Direction) (a b c : S)
      → at_least_as_good less d a b ≡ true
      → at_least_as_good less d b c ≡ true
      → at_least_as_good less d a c ≡ true
  good_chain lower_is_better a b c h k = ground (arith, order.chain a b c)
  good_chain higher_is_better a b c h k = ground (arith, order.chain c b a)
  good_chain (other_direction s) a b c h k = ground (arith, order.chain c b a)

  better_left :
      (d : Direction) (a b c : S)
      → better less d a b ≡ true
      → at_least_as_good less d b c ≡ true
      → better less d a c ≡ true
  better_left lower_is_better a b c h k = ground (arith, order.chain b c a)
  better_left higher_is_better a b c h k = ground (arith, order.chain a c b)
  better_left (other_direction s) a b c h k = ground (arith, order.chain a c b)

  better_right :
      (d : Direction) (a b c : S)
      → at_least_as_good less d a b ≡ true
      → better less d b c ≡ true
      → better less d a c ≡ true
  better_right lower_is_better a b c h k = ground (arith, order.chain c a b)
  better_right higher_is_better a b c h k = ground (arith, order.chain b a c)
  better_right (other_direction s) a b c h k = ground (arith, order.chain b a c)

  better_irrefl : (d : Direction) (a : S) → better less d a a ≡ false
  better_irrefl lower_is_better a = ground (arith, order.asym a a)
  better_irrefl higher_is_better a = ground (arith, order.asym a a)
  better_irrefl (other_direction s) a = ground (arith, order.asym a a)

  module _ (dims : List (CompareCriterion S)) (points : String → String → S)
      (split : String → String → Bool) where
    abbrev over : List (CompareCriterion S) → Bool → String → String → Bool
    over = dominates_from less dims points split

    over_irrefl : (ds : List (CompareCriterion S)) (a : String) → over ds false a a ≡ false
    unfolding dominates_from
    over_irrefl [] a = refl
    over_irrefl (d ∷ ds) a =
        ground (arith, over_irrefl ds a, better_irrefl d.direction (points a d.name))

    over-cons :
        (d : CompareCriterion S) (ds : List (CompareCriterion S)) (s : Bool) (a b : String)
        → over (d ∷ ds) s a b ≡ true
        → (at_least_as_good less d.direction (points a d.name) (points b d.name) ≡ true)
          × (over ds (s || better less d.direction (points a d.name) (points b d.name)) a b ≡ true)
    unfolding dominates_from
    over-cons d ds s a b h = ground (arith, h)

    over_chain :
        (ds : List (CompareCriterion S)) (s t u : Bool) (a b c : String)
        → (s ≡ true → u ≡ true)
        → (t ≡ true → u ≡ true)
        → over ds s a b ≡ true
        → over ds t b c ≡ true
        → over ds u a c ≡ true
    unfolding dominates_from
    over_chain [] s t u a b c f g h k = f h
    over_chain (d ∷ ds) s t u a b c f g h k =
        let x = points a d.name in
        let y = points b d.name in
        let z = points c d.name in
        let (good_ab, rest_ab) = over-cons d ds s a b h in
        let (good_bc, rest_bc) = over-cons d ds t b c k in
        let good = good_chain d.direction x y z good_ab good_bc in
        let later =
          over_chain ds (s || better less d.direction x y) (t || better less d.direction y z)
            (u || better less d.direction x z) a b c
            (λ e. ground (arith, e, f, better_left d.direction x y z))
            (λ e. ground (arith, e, g, better_right d.direction x y z)) rest_ab rest_bc in
        rw good later

    -- No option dominates itself, and what dominates a dominator dominates.
    pub dominates_irrefl : (a : String) → dominates less dims points split a a ≡ false
    unfolding dominates
    dominates_irrefl a = over_irrefl dims a

    pub dominates_chain :
        (a b c : String)
        → dominates less dims points split a b ≡ true
        → dominates less dims points split b c ≡ true
        → dominates less dims points split a c ≡ true
    unfolding dominates
    dominates_chain a b c h k = over_chain dims false false false a b c (λ e. e) (λ e. e) h k
