-- ===== src/Govern/Tally/Claims.antt =====
-- `ballotClaim` and `ballotSensitivity`: the claim over a shortlisted candidate.
pub mod Ranked
use aimesh.Base.{
  ℕ, String, Bool, true, false, not, List, [], ◌∷◌, ◌++◌, map, Option, none, some, keep, ltb,
  String_comparable, if◌then◌else◌,
}
use aimesh.Base.Number.{◌<>◌}
use aimesh.Base.Order.{sort_texts}
use aimesh.Base.Sets.{contains, key_set, distinct_count}
use aimesh.Schema.{ExplorerIdentity, ExplorerIdentity_comparable}
use aimesh.Canon.Contested.{
  ContestedDirection, ContestedMapping, alternative_joins, alternative_separates, affects,
  direction_text,
}
use aimesh.Canon.View.{Result}
use aimesh.Govern.Policy.{Panel, denominators, rules_version}
use aimesh.Govern.Baseline.{BlindBaseline}
use aimesh.Govern.Claim.{
  Claim, Sensitivity, Label, ranked, withheld_contested, withheld_below_quorum, withheld_tie,
}
use aimesh.Govern.Corroborate.{Ranging, dedupe, join_notes}
use aimesh.Govern.Decision.{FrozenDecision, ballot_query}
use aimesh.Govern.Ballot.{Ballot}

pub record TallyInput : Type 0 where
  pub frozen : FrozenDecision
  pub ballots : List Ballot
  pub partition : Result
  pub contested : List ContestedMapping
  pub baseline : BlindBaseline
  pub panel : Panel
  pub formulation_hash : String
  pub ballot_round_id : String

-- What a claim reads of a candidate.
pub record Candidate : Type 0 where
  pub canonical_id : String
  pub name : String
  pub support : ℕ

-- The ballots that place a candidate.
abbrev pub placing : String → List Ballot → List Ballot
placing id = keep λ b. contains b.ranking id

-- The keys of `supporters[id]`.
abbrev pub supporters : List Ballot → String → List ExplorerIdentity
supporters ballots id = map (λ b. b.by) (placing id ballots)

-- `pooled`: who supports any of the held entities.
abbrev pub pooled : List Ballot → List String → List ExplorerIdentity
pooled ballots [] = []
pooled ballots (id ∷ ids) = supporters ballots id ++ pooled ballots ids

-- The switch on the direction.
alternative : List Ballot → ContestedMapping → ContestedDirection → ℕ → ℕ
alternative ballots m alternative_joins alt =
    let joined = distinct_count (pooled ballots m.held_canonical_ids) in
    if ltb alt joined then joined else alt
alternative ballots m alternative_separates alt = 0

pub ballot_widened : List Ballot → ContestedMapping → Ranging → Ranging
unfolding alternative
ballot_widened ballots m r = record {
  ids = r.ids ++ m.held_canonical_ids;
  alt = alternative ballots m m.direction r.alt;
  direction = direction_text m.direction;
  notes = r.notes ++ (m.reason ∷ []);
}

-- The loop, and whether it met a mapping that affects the candidate.
pub ballot_range_over :
    List Ballot → String → List ContestedMapping → Ranging → Bool → Ranging × Bool
unfolding ballot_widened
ballot_range_over ballots id [] r affected = (r, affected)
ballot_range_over ballots id (m ∷ ms) r affected =
    let hit = affects m id in
    ballot_range_over ballots id ms (if hit then ballot_widened ballots m r else r)
      (if hit then true else affected)

abbrev pub ballot_note : String
ballot_note =
    "the entity resolution behind this candidate is contested, so the ballot's option set is itself conditional; computed over both plausible partitions: "

pub ballot_range_of : ℕ → Ranging × Bool → Option Sensitivity
unfolding dedupe join_notes ◌<>◌
ballot_range_of held x =
    let r = x.0 in
    if x.1
    then some (record {
      low = if ltb r.alt held then r.alt else held;
      high = if ltb r.alt held then held else r.alt;
      held_value = held;
      alternative_value = r.alt;
      direction = r.direction;
      contested_canonical_ids = dedupe r.ids;
      note = ballot_note <> join_notes r.notes;
    })
    else none

abbrev pub unranged : Candidate → Ranging
unranged e = record { ids = []; alt = e.support; direction = ""; notes = [] }

unfoldable pub ballot_sensitivity : TallyInput → Candidate → Option Sensitivity
unfolding ballot_range_over ballot_range_of
ballot_sensitivity i e =
    ballot_range_of e.support
      (ballot_range_over i.ballots e.canonical_id i.contested (unranged e) false)

abbrev pub ballot_label : Option Sensitivity → Bool → Bool → Label
ballot_label (some s) tied_at_boundary quorum_met = withheld_contested
ballot_label none tied_at_boundary quorum_met =
    if not quorum_met
    then withheld_below_quorum
    else if tied_at_boundary
    then withheld_tie
    else ranked

unfoldable pub ballot_claim : TallyInput → Candidate → Bool → Bool → Claim
unfolding ballot_sensitivity
ballot_claim i e tied_at_boundary quorum_met =
    let (of_panel, of_respondents) = denominators i.panel e.support in
    let range = ballot_sensitivity i e in
    record {
      query = ballot_query;
      subject = e.canonical_id;
      subject_label = e.name;
      value = e.support;
      k_of_panel = of_panel;
      k_of_respondents = of_respondents;
      formulation_hash = i.formulation_hash;
      partition_revision_hash = i.partition.partition_revision_hash;
      rules_version = rules_version;
      policy_hash = i.panel.policy_hash;
      baseline_round_id = i.ballot_round_id;
      contributing_source_ids =
          sort_texts (key_set (map (λ b. b.envelope_ref) (placing e.canonical_id i.ballots)));
      label = ballot_label range tied_at_boundary quorum_met;
      sensitivity = range;
    }
