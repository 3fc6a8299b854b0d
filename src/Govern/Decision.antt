-- ===== src/Govern/Decision.antt =====
-- decision.go: the criteria and the frozen inputs of a decision. The digest of the inputs (the hex SHA-256
-- of their JSON) is a parameter.
pub mod Frozen
use aimesh.Canon.Presented.{Presentation}
use aimesh.Base.{
  ℕ, String, Bool, true, false, not, ◌||◌, List, [], ◌∷◌, Option, none, some, length, is_empty, ltb,
}
use aimesh.Base.Outcome.{Outcome, ok, err, ◌>>=◌, ◌>>◌, refuse}
use aimesh.Base.Text.{is_blank}
use aimesh.Canon.View.{Result}
use aimesh.Govern.Policy.{TieRule, MissingResponsePolicy, Panel, rules_version}

abbrev pub decision_rule_version : String
decision_rule_version = "host-ballot-tally@v1"

abbrev pub ballot_query : String
ballot_query = "ballot-over-confirmed-universe@v1"

-- A method, an origin and an aggregation are texts in the program: those that it knows, or any other.
pub data DecisionMethod : Type 0 where
  positional_ballot : DecisionMethod
  other_method : String → DecisionMethod

pub data CriterionOrigin : Type 0 where
  user explorer_proposed collator_proposed_authorized : CriterionOrigin
  other_origin : String → CriterionOrigin

pub data AggregationMethod : Type 0 where
  aggregation_none evidence_synthesis mention_frequency ballot collator_judgment : AggregationMethod
  other_aggregation : String → AggregationMethod

pub record Authorization : Type 0 where
  pub actor : String
  pub timestamp : String
  pub criterion_version : String
  pub scope : String

pub record Criterion : Type 0 where
  pub name : String
  pub origin : CriterionOrigin
  pub aggregation_method : AggregationMethod
  pub authorization : Option Authorization

pub data DecisionError : Type 0 where
  blank_authorization empty_name unknown_origin unknown_aggregation : DecisionError
  no_authorization needless_authorization : DecisionError
  unknown_method no_universe empty_universe no_criteria : DecisionError
  shortlist_outside : ℕ → ℕ → DecisionError
  quorum_below_two : ℕ → DecisionError
  no_policy_hash : DecisionError

-- `Authorization.Validate`: the code reads the fields in no order, and refuses whichever is blank.
unfoldable pub validate_authorization : Authorization → Outcome DecisionError (Unit {0})
validate_authorization a =
    refuse
      (is_blank a.actor || is_blank a.timestamp || is_blank a.criterion_version || is_blank a.scope)
      blank_authorization

abbrev pub known_origin : CriterionOrigin → Bool
known_origin (other_origin s) = false
known_origin _ = true

abbrev pub known_aggregation : AggregationMethod → Bool
known_aggregation (other_aggregation s) = false
known_aggregation _ = true

-- The last test of `Criterion.Validate`.
unfoldable pub check_origin :
    CriterionOrigin → Option Authorization → Outcome DecisionError (Unit {0})
check_origin collator_proposed_authorized none = err no_authorization
check_origin collator_proposed_authorized (some a) = validate_authorization a
check_origin _ none = ok tt
check_origin _ (some a) = err needless_authorization

-- `Criterion.Validate`
unfoldable pub validate_criterion : Criterion → Outcome DecisionError (Unit {0})
validate_criterion c = do
  refuse (is_blank c.name) empty_name
  refuse (not (known_origin c.origin)) unknown_origin
  refuse (not (known_aggregation c.aggregation_method)) unknown_aggregation
  check_origin c.origin c.authorization

pub record DecisionInputs : Type 0 where
  pub rules_version : String
  pub method : DecisionMethod
  pub universe_revision_hash : String
  pub presentation : Presentation
  pub criteria : List Criterion
  pub shortlist_size : ℕ
  pub quorum : ℕ
  pub tie_rule : TieRule
  pub missing_response : MissingResponsePolicy
  pub policy_hash : String

abbrev pub known_method : DecisionMethod → Bool
known_method positional_ballot = true
known_method (other_method s) = false

unfoldable pub validate_criteria : List Criterion → Outcome DecisionError (Unit {0})
validate_criteria [] = ok tt
validate_criteria (c ∷ cs) = validate_criterion c >> validate_criteria cs

-- `DecisionInputs.Validate`
unfoldable pub validate_inputs : DecisionInputs → Outcome DecisionError (Unit {0})
validate_inputs d = do
  let options = length d.presentation.order
  refuse (not (known_method d.method)) unknown_method
  refuse (is_blank d.universe_revision_hash) no_universe
  refuse (is_empty d.presentation.order) empty_universe
  refuse (is_empty d.criteria) no_criteria
  validate_criteria d.criteria
  refuse (ltb d.shortlist_size 1 || ltb options d.shortlist_size)
      (shortlist_outside d.shortlist_size options)
  refuse (ltb d.quorum 2) (quorum_below_two d.quorum)
  refuse (is_blank d.policy_hash) no_policy_hash

pub record FrozenDecision : Type 0 where
  pub inputs : DecisionInputs
  pub inputs_hash : String

abbrev pub inputs_of :
    Panel → Result → Presentation → List Criterion → DecisionMethod → ℕ → DecisionInputs
inputs_of p universe pres criteria method size = record {
  rules_version = rules_version;
  method = method;
  universe_revision_hash = universe.partition_revision_hash;
  presentation = pres;
  criteria = criteria;
  shortlist_size = size;
  quorum = p.policy.quorum;
  tie_rule = p.policy.tie_rule;
  missing_response = p.policy.missing_response;
  policy_hash = p.policy_hash;
}

unfoldable pub freeze_decision :
    (DecisionInputs → String)
    → Panel
    → Result
    → Presentation
    → List Criterion
    → DecisionMethod
    → ℕ
    → Outcome DecisionError FrozenDecision
freeze_decision digest p universe pres criteria method size = do
  let d = inputs_of p universe pres criteria method size
  validate_inputs d
  ok (record { inputs = d; inputs_hash = digest d })
