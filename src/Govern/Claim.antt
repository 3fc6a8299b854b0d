-- ===== src/Govern/Claim.antt =====
-- govern.go: labels, claims and the claim ledger. The digest that extends the ledger's chain (the hex
-- SHA-256 of the head followed by the claim's JSON) is a parameter.
pub mod Emitted
use aimesh.Base.{
  ℕ, suc, ◌+◌, String, Bool, true, false, List, [], ◌∷◌, ◌++◌, Option, none, some, length, ltb,
  if◌then◌else◌,
}
use aimesh.Schema.{ExplorerIdentity}
use aimesh.Govern.Policy.{Panel, Denominator, rules_version}

-- The labels of govern.go, and `LabelWithheldDisagreement` of fixedspace.go.
pub data Label : Type 0 where
  corroborated single_source withheld_contested withheld_below_quorum : Label
  ranked withheld_tie withheld_disagreement : Label

abbrev pub definitive : Label → Bool
definitive corroborated = true
definitive single_source = true
definitive ranked = true
definitive _ = false

pub record Sensitivity : Type 0 where
  pub low : ℕ
  pub high : ℕ
  pub held_value : ℕ
  pub alternative_value : ℕ
  pub direction : String
  pub contested_canonical_ids : List String
  pub note : String

pub record Claim : Type 0 where
  pub query : String
  pub subject : String
  pub subject_label : String
  pub value : ℕ
  pub k_of_panel : Denominator
  pub k_of_respondents : Denominator
  pub formulation_hash : String
  pub partition_revision_hash : String
  pub rules_version : String
  pub policy_hash : String
  pub baseline_round_id : String
  pub contributing_source_ids : List String
  pub label : Label
  pub sensitivity : Option Sensitivity

pub record ClaimLedger : Type 0 where
  pub claims : List Claim
  pub hash : String

abbrev pub no_claims : ClaimLedger
no_claims = record { claims = []; hash = "" }

-- `Emit` returns the claim unchanged beside the new ledger.
unfoldable pub emit : (String → Claim → String) → ClaimLedger → Claim → ClaimLedger × Claim
emit digest l c = (record { claims = l.claims ++ (c ∷ []); hash = digest l.hash c }, c)

pub record Narrative : Type 0 where
  pub source : ExplorerIdentity
  pub phase : String
  pub prose : String

pub record Report : Type 0 where
  pub panel : Panel
  pub rules_version : String
  pub claims : List Claim
  pub claims_hash : String
  pub collator_narrative : List Narrative

unfoldable pub new_report : Panel → ClaimLedger → List Narrative → Report
new_report p l narrative = record {
  panel = p;
  rules_version = rules_version;
  claims = l.claims;
  claims_hash = l.hash;
  collator_narrative = narrative;
}
