-- ===== src/Govern/Estimate.antt =====
-- fixedspace.go: the claim over a pooled forecast. The pooled numbers are not part of it.
pub mod Forecasters
use aimesh.Base.{ℕ, String, String_comparable, Bool, not, List, keep, eqb, leb, if◌then◌else◌}
use aimesh.Base.Number.{◌<>◌}
use aimesh.Base.Order.{sort_texts}
use aimesh.Base.Outcome.{Outcome, ok, err, ◌>>=◌, ◌>>◌, refuse}
use aimesh.Base.Sets.{key_set, distinct_count}
use aimesh.Base.Text.{trim_space}
use aimesh.Schema.{ExplorerIdentity, ExplorerIdentity_comparable}
use aimesh.Govern.Policy.{Panel, denominators, quorum_met, rules_version}
use aimesh.Govern.Baseline.{BlindBaseline, size, contains_ref}
use aimesh.Govern.Claim.{Claim, Label, corroborated, single_source, withheld_below_quorum}
use mathlib.Core.Option.{none}

abbrev pub estimate_query : String
estimate_query = "pooled-estimate-over-blind-round-1@v1"

abbrev pub fixed_space_no_partition : String
fixed_space_no_partition =
    "none — fixed space: the option set and criteria were declared by the user before any explorer spoke, so no entity resolution was performed and there is no partition to pin"

pub record EstimateClaimInput : Type 0 where
  pub target : String
  pub unit : String
  pub baseline : BlindBaseline
  pub panel : Panel
  pub formulation_hash : String
  pub envelope_refs : List String
  pub sources : List ExplorerIdentity

pub data EstimateError : Type 0 where
  no_estimate_baseline : EstimateError

-- `distinct`
abbrev pub distinct : List ExplorerIdentity → ℕ
distinct ids = distinct_count ids

abbrev pub estimate_label : ℕ → Panel → Label
estimate_label k p =
    if not (quorum_met p)
    then withheld_below_quorum
    else if leb 2 k
    then corroborated
    else single_source

-- The claim, once there is a baseline.
estimate : EstimateClaimInput → Claim
unfolding trim_space ◌<>◌
estimate i =
    let k = distinct i.sources in
    let (of_panel, of_respondents) = denominators i.panel k in
    record {
      query = estimate_query;
      subject = i.target;
      subject_label = trim_space (i.target <> (" (" <> (i.unit <> ")")));
      value = k;
      k_of_panel = of_panel;
      k_of_respondents = of_respondents;
      formulation_hash = i.formulation_hash;
      partition_revision_hash = fixed_space_no_partition;
      rules_version = rules_version;
      policy_hash = i.panel.policy_hash;
      baseline_round_id = i.baseline.round_id;
      contributing_source_ids =
          sort_texts (key_set (keep (contains_ref i.baseline) i.envelope_refs));
      label = estimate_label k i.panel;
      sensitivity = none;
    }

unfoldable pub estimate_claim : EstimateClaimInput → Outcome EstimateError Claim
unfolding estimate
estimate_claim i = do refuse (eqb (size i.baseline) 0) no_estimate_baseline; ok (estimate i)
