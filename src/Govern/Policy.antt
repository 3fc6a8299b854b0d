-- ===== src/Govern/Policy.antt =====
-- govern.go: the counting policy, the frozen panel and its two denominators. Counts are numbers; the
-- digest of a policy (the hex SHA-256 of its JSON) is a parameter.
pub mod Quorum
use aimesh.Base.{
  ℕ, ◌+◌, ◌-◌, String, Bool, true, false, not, List, length, is_empty, ltb, leb, if◌then◌else◌,
}
use aimesh.Base.Outcome.{Outcome, ok, err, ◌>>=◌, ◌>>◌, refuse}
use aimesh.Base.Text.{is_blank}
use aimesh.Schema.{ExplorerIdentity}

-- A rule is a text in the program: the one that it knows, or any other.
pub data TieRule : Type 0 where
  withhold_no_winner : TieRule
  other_tie_rule : String → TieRule

pub data MissingResponsePolicy : Type 0 where
  exclude_from_respondents : MissingResponsePolicy
  other_missing_policy : String → MissingResponsePolicy

abbrev pub rules_version : String
rules_version = "exploremesh-governance-rules@v1"

pub record CountingPolicy : Type 0 where
  pub rules_version : String
  pub quorum : ℕ
  pub tie_rule : TieRule
  pub missing_response : MissingResponsePolicy

abbrev pub default_counting_policy : CountingPolicy
default_counting_policy = record {
  rules_version = rules_version;
  quorum = 2;
  tie_rule = withhold_no_winner;
  missing_response = exclude_from_respondents;
}

pub data PolicyError : Type 0 where
  no_rules_version : PolicyError
  quorum_below_two : ℕ → PolicyError
  unknown_tie_rule : TieRule → PolicyError
  unknown_missing_policy : MissingResponsePolicy → PolicyError
  no_members : PolicyError

abbrev pub is_withhold : TieRule → Bool
is_withhold withhold_no_winner = true
is_withhold (other_tie_rule s) = false

abbrev pub is_exclude : MissingResponsePolicy → Bool
is_exclude exclude_from_respondents = true
is_exclude (other_missing_policy s) = false

-- `CountingPolicy.Validate`
unfoldable pub validate_policy : CountingPolicy → Outcome PolicyError (Unit {0})
validate_policy p = do
  refuse (is_blank p.rules_version) no_rules_version
  refuse (ltb p.quorum 2) (quorum_below_two p.quorum)
  refuse (not (is_withhold p.tie_rule)) (unknown_tie_rule p.tie_rule)
  refuse (not (is_exclude p.missing_response)) (unknown_missing_policy p.missing_response)

pub data Basis : Type 0 where
  panel respondents : Basis

pub record Denominator : Type 0 where
  pub k : ℕ
  pub m : ℕ
  pub basis : Basis

-- `Outcome` of govern.go.
pub record Participation : Type 0 where
  pub dispatched : ℕ
  pub eligible : ℕ
  pub technical_absence : ℕ
  pub deliberate_abstention : ℕ

abbrev pub nobody_yet : Participation
nobody_yet = record {
  dispatched = 0;
  eligible = 0;
  technical_absence = 0;
  deliberate_abstention = 0;
}

pub record Panel : Type 0 where
  pub members : List ExplorerIdentity
  pub selected : ℕ
  pub policy : CountingPolicy
  pub policy_hash : String
  pub outcome : Participation

abbrev pub panel_of : (CountingPolicy → String) → List ExplorerIdentity → CountingPolicy → Panel
panel_of digest members p = record {
  members = members;
  selected = length members;
  policy = p;
  policy_hash = digest p;
  outcome = nobody_yet;
}

unfoldable pub freeze :
    (CountingPolicy → String) → List ExplorerIdentity → CountingPolicy → Outcome PolicyError Panel
unfolding validate_policy
freeze digest members p = do
  refuse (is_empty members) no_members
  validate_policy p
  ok (panel_of digest members p)

unfoldable pub with_outcome : Panel → Participation → Panel
with_outcome p o = record p { outcome = o }

-- `m := Selected - TechnicalAbsence - DeliberateAbstention`, or 0 where that is negative.
unfoldable pub respondent_count : Panel → ℕ
respondent_count p =
    let away = p.outcome.technical_absence + p.outcome.deliberate_abstention in
    if ltb p.selected away then 0 else p.selected - away

unfoldable pub denominators : Panel → ℕ → Denominator × Denominator
denominators p k = (
  record { k = k; m = p.selected; basis = panel },
  record { k = k; m = respondent_count p; basis = respondents },
)

unfoldable pub quorum_met : Panel → Bool
quorum_met p = leb p.policy.quorum (respondent_count p)
