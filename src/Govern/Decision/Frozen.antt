-- ===== src/Govern/Decision/Frozen.antt =====
-- What freezing a decision demands.
use mathlib.Core.Path.{subst}
use aimesh.Canon.Presented.{Presentation}
use aimesh.Base.{
  ℕ, ◌≤◌, ◌≡◌, ◌↔◌, sym, String, true, false, List, [], ◌∷◌, Option, none, some, length, is_empty,
  arith, All, ◌≢◌,
}
use aimesh.Base.Outcome.{ok, IsOk, >>=-eq-ok}
use aimesh.Base.Text.{is_blank}
use aimesh.Canon.View.{Result}
use aimesh.Govern.Policy.{Panel}
use aimesh.Govern.Decision.{
  Authorization, CriterionOrigin, collator_proposed_authorized, user, explorer_proposed,
  other_origin, Criterion, DecisionMethod, DecisionInputs, FrozenDecision, validate_authorization,
  check_origin, validate_criterion, validate_criteria, validate_inputs, inputs_of, freeze_decision,
  known_origin, known_aggregation, known_method, positional_ballot, other_method,
}

abbrev pub IsFilled : Authorization → Type 0
IsFilled a =
    (is_blank a.actor ≡ false)
    × (is_blank a.timestamp ≡ false)
    × (is_blank a.criterion_version ≡ false)
    × (is_blank a.scope ≡ false)

-- An authorization exactly where the origin requires one, and then with no blank field.
abbrev pub IsAuthorized : CriterionOrigin → Option Authorization → Type 0
IsAuthorized o none = o ≢ collator_proposed_authorized
IsAuthorized o (some a) = (o ≡ collator_proposed_authorized) × IsFilled a

abbrev pub IsCriterion : Criterion → Type 0
IsCriterion c =
    (is_blank c.name ≡ false)
    × (known_origin c.origin ≡ true)
    × (known_aggregation c.aggregation_method ≡ true)
    × IsAuthorized c.origin c.authorization

-- What every frozen decision states.
abbrev pub IsDecidable : DecisionInputs → Type 0
IsDecidable d =
    (d.method ≡ positional_ballot)
    × (is_blank d.universe_revision_hash ≡ false)
    × (is_empty d.criteria ≡ false)
    × All IsCriterion d.criteria
    × (1 ≤ d.shortlist_size)
    × (d.shortlist_size ≤ length d.presentation.order)
    × (2 ≤ d.quorum)
    × (is_blank d.policy_hash ≡ false)

check_origin_iff :
    (o : CriterionOrigin) (a : Option Authorization) → IsOk (check_origin o a) ↔ IsAuthorized o a
unfolding check_origin validate_authorization
check_origin_iff collator_proposed_authorized none = ground arith
check_origin_iff collator_proposed_authorized (some a) = ground arith
check_origin_iff user none = ground arith
check_origin_iff user (some a) = ground arith
check_origin_iff explorer_proposed none = ground arith
check_origin_iff explorer_proposed (some a) = ground arith
check_origin_iff (other_origin s) none = ground arith
check_origin_iff (other_origin s) (some a) = ground arith

criterion_iff : (c : Criterion) → IsOk (validate_criterion c) ↔ IsCriterion c
unfolding validate_criterion
criterion_iff c = ground (arith, check_origin_iff c.origin c.authorization)

criteria_iff : (cs : List Criterion) → IsOk (validate_criteria cs) ↔ All IsCriterion cs
unfolding validate_criteria
criteria_iff [] = ground arith
criteria_iff (c ∷ cs) = ground (arith, criterion_iff c, criteria_iff cs)

method_iff : (m : DecisionMethod) → (known_method m ≡ true) ↔ (m ≡ positional_ballot)
method_iff positional_ballot = ground arith
method_iff (other_method s) = ground arith

is_empty-length : (xs : List String) → (is_empty xs ≡ true) ↔ (length xs ≡ 0)
is_empty-length [] = ground arith
is_empty-length (x ∷ xs) = ground arith

inputs_iff : (d : DecisionInputs) → IsOk (validate_inputs d) ↔ IsDecidable d
unfolding validate_inputs
inputs_iff d =
    ground
      (arith, criteria_iff d.criteria, method_iff d.method, is_empty-length d.presentation.order)

module _ (digest : DecisionInputs → String) (p : Panel) (universe : Result) (pres : Presentation)
    (criteria : List Criterion) (method : DecisionMethod) (size : ℕ) where
  -- A decision is frozen exactly if its method is the host's, it has a universe, a policy hash, criteria
  -- that all name a known origin and aggregation and are authorized exactly where the collator proposed
  -- them, a quorum of two and a shortlist no longer than the options; and it then carries the panel's
  -- policy and its own digest.
  pub freeze_decision_iff :
      (f : FrozenDecision)
      → (freeze_decision digest p universe pres criteria method size ≡ ok f) ↔ (
          IsDecidable f.inputs
          × (f.inputs ≡ inputs_of p universe pres criteria method size)
          × (f.inputs_hash ≡ digest f.inputs))
  unfolding freeze_decision
  freeze_decision_iff f =
      let d = inputs_of p universe pres criteria method size in
      let decidable = inputs_iff d in
      (
        λ e.
            let (u, checked, frozen) = >>=-eq-ok (validate_inputs d) _ e in
            let same : inputs_of p universe pres criteria method size ≡ f.inputs = ground arith in
            (subst IsDecidable same (decidable.0 (u, checked)), sym same, ground arith),
        λ h. ground (arith, decidable.1 (subst IsDecidable h.1 h.0), h.1, h.2),
      )
