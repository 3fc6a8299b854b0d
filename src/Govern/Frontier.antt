-- ===== src/Govern/Frontier.antt =====
-- fixedspace.go: `paretoFrontier` over the scored dimensions, with `Direction` and `CompareCriterion` of
-- internal/explore/schema/compare.go. A score is a floating-point number that is not NaN; the type of the
-- scores and `<` are parameters. The value that stands for a cell is 0 where there is none.
pub mod Dominance
pub mod Undominated
use aimesh.Base.{
  String, Bool, true, false, not, ◌&&◌, ◌||◌, List, [], ◌∷◌, map, keep, is_empty, ◌==◌,
  String_comparable, if◌then◌else◌,
}
use aimesh.Base.Number.{◌<>◌}

-- A direction is a text in the program; all but `lower_is_better` are read as higher.
pub data Direction : Type 0 where
  higher_is_better lower_is_better : Direction
  other_direction : String → Direction

-- Likewise all but `filter` are read as a dimension.
pub data CriterionRole : Type 0 where
  dimension filter : CriterionRole
  other_role : String → CriterionRole

pub record CompareCriterion (S : Type 0) : Type 0 where
  pub name : String
  pub direction : Direction
  pub role : CriterionRole
  pub weight : S

-- `EffectiveRole() == RoleDimension`
abbrev pub is_dimension : CriterionRole → Bool
is_dimension filter = false
is_dimension _ = true

pub record ParetoEntry (S : Type 0) : Type 0 where
  pub option : String
  pub scores : List (String × S)
  pub dominates : List String
  pub conditional : Bool
  pub disagreed_cells : List String

pub record DominatedOption (S : Type 0) : Type 0 where
  pub option : String
  pub scores : List (String × S)
  pub dominated_by : List String

-- `CellSubject`
unfoldable pub cell_subject : String → String → String
unfolding ◌<>◌
cell_subject option criterion = option <> (" / " <> criterion)

module _ {S : Type 0} (less : S → S → Bool) where
  abbrev pub better : Direction → S → S → Bool
  better lower_is_better a b = less a b
  better _ a b = less b a

  abbrev pub at_least_as_good : Direction → S → S → Bool
  at_least_as_good lower_is_better a b = not (less b a)
  at_least_as_good _ a b = not (less a b)

  -- `scoredDimensions`
  abbrev pub scored_dimensions : List (CompareCriterion S) → List (CompareCriterion S)
  scored_dimensions = keep λ (c : CompareCriterion S). is_dimension c.role

  module _ (dims : List (CompareCriterion S)) (points : String → String → S)
      (split : String → String → Bool) where
    -- The loop of `dominates`, with `strict` so far.
    unfoldable pub dominates_from : List (CompareCriterion S) → Bool → String → String → Bool
    dominates_from [] strict a b = strict
    dominates_from (d ∷ ds) strict a b =
        let rest =
          dominates_from ds (strict || better d.direction (points a d.name) (points b d.name)) a
            b in
        if not (at_least_as_good d.direction (points a d.name) (points b d.name))
        then false
        else rest

    unfoldable pub dominates : String → String → Bool
    unfolding dominates_from
    dominates a b = dominates_from dims false a b

    -- `other != opt && dominates(other, opt)`
    abbrev pub is_above : String → String → Bool
    is_above opt other = not (other == opt) && dominates other opt

    abbrev pub is_below : String → String → Bool
    is_below opt other = not (other == opt) && dominates opt other

    abbrev pub scores_of : String → List (String × S)
    scores_of opt = map (λ (d : CompareCriterion S). (d.name, points opt d.name)) dims

    -- The split cells of an option.
    abbrev pub disagreed : String → List String
    disagreed opt =
        map (λ (d : CompareCriterion S). cell_subject opt d.name)
          (keep (λ (d : CompareCriterion S). split opt d.name) dims)

    abbrev pub pareto_entry : List String → String → ParetoEntry S
    pareto_entry options opt = record {
      option = opt;
      scores = scores_of opt;
      dominates = keep (is_below opt) options;
      conditional = not (is_empty (disagreed opt));
      disagreed_cells = disagreed opt;
    }

    abbrev pub dominated_option : List String → String → DominatedOption S
    dominated_option options opt = record {
      option = opt;
      scores = scores_of opt;
      dominated_by = keep (is_above opt) options;
    }

    -- The loop over the options, of which `rest` are left.
    unfoldable pub split_frontier :
        List String → List String → List (ParetoEntry S) × List (DominatedOption S)
    unfolding dominates
    split_frontier options [] = ([], [])
    split_frontier options (opt ∷ rest) =
        let found = split_frontier options rest in
        if not (is_empty (keep (is_above opt) options))
        then (found.0, dominated_option options opt ∷ found.1)
        else (pareto_entry options opt ∷ found.0, found.1)

    unfoldable pub pareto_frontier : List String → List (ParetoEntry S) × List (DominatedOption S)
    unfolding split_frontier
    pareto_frontier options = split_frontier options options
