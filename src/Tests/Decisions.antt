-- ===== src/Tests/Decisions.antt =====
-- A frozen decision and its tally on the sample.
use mathlib.Core.List.{Perm}
use aimesh.Canon.Presented.{Presentation}
use aimesh.Base.{
  get_elem?, some, true, String_comparable, ◌≡◌, ◌↔◌, ◌≤◌, refl, String, false, ◌&&◌, List, [], ◌∷◌,
  none, is_empty, length, min, arith, All,
}
use aimesh.Base.Outcome.{ok, IsOk}
use aimesh.Base.Sets.{IsUnique}
use aimesh.Base.Order.{sort_by, insert_by}
use aimesh.Base.Text.{is_blank, trim_space, text_lt}
use aimesh.Canon.View.{Result}
use aimesh.Govern.Decision.{
  Criterion, user, ballot, positional_ballot, DecisionInputs, inputs_of, freeze_decision,
}
use aimesh.Govern.Decision.Frozen.{IsDecidable, freeze_decision_iff}
use aimesh.Govern.Ballot.{Ballot, validate_ballot, check_ranking, check_approved}
use aimesh.Govern.Ballot.Valid.{AllIn, validate_ballot_iff}
use aimesh.Govern.Tally.{
  DecisionEntry, tally, shortlisted, add_ballots, add_ranking, add_approved, ranked_entries, better,
  rank_entries, rank_after, decide, conclude,
}
use aimesh.Govern.Tally.Claims.{TallyInput}
use aimesh.Govern.Tally.Labels.{IsLabelled, tally-IsLabelled}
use aimesh.Govern.Tally.Ballots.{IsCounted, tally-IsCounted}
use aimesh.Govern.Tally.Standing.{ids_of, tally-perm}
use aimesh.Govern.Tally.Shortlist.{AllValid, tally_iff}
use aimesh.Govern.Tally.Cut.{tally-shortlisted}
use aimesh.Govern.Tally.Ahead.{IsRankedIn, outranks}
use aimesh.Govern.Tally.Fair.{tally_fair}
use aimesh.Govern.Tally.Ranks.{tally-IsRankedIn}
use aimesh.Tests.Sample.{ann, bob, baseline, panel}

abbrev partition : Result
partition = record {
  clusters = [];
  proposed_dimensions = [];
  coverage_notes = "";
  partition_revision_hash = "head";
  ledger = none;
  canonicalizers = [];
  agreement_rule_version = "";
  nominations = [];
}

abbrev options : List String
options = "redis" ∷ "sqlite" ∷ []

abbrev presentation : Presentation
presentation = record { order = options; seed = "seed"; rule_version = "v1" }

abbrev criteria : List Criterion
criteria =
    record { name = "cost"; origin = user; aggregation_method = ballot; authorization = none } ∷ []

abbrev digest : DecisionInputs → String
digest d = "inputs"

abbrev inputs : DecisionInputs
inputs = inputs_of panel partition presentation criteria positional_ballot 1

decidable : IsDecidable inputs
unfolding is_blank trim_space
decidable = (
  refl,
  refl,
  refl,
  ((refl, refl, refl, (λ e. cc)), tt),
  omega arith,
  omega arith,
  omega arith,
  refl,
)

freeze_decision_iff_example :
    (freeze_decision digest panel partition presentation criteria positional_ballot 1
      ≡ ok (record { inputs = inputs; inputs_hash = "inputs" }))
    ↔ (IsDecidable inputs × (inputs ≡ inputs) × (digest inputs ≡ digest inputs))
freeze_decision_iff_example =
    freeze_decision_iff digest panel partition presentation criteria positional_ballot 1
      (record { inputs = inputs; inputs_hash = "inputs" })

abbrev vote : List String → Ballot
vote ranking = record {
  by = ann;
  envelope_ref = "r2:envelope#0";
  ranking = ranking;
  approved = "redis" ∷ [];
  rationale = "";
}

abbrev ballots : List Ballot
ballots =
    vote ("sqlite" ∷ "redis" ∷ [])
    ∷ record (vote ("redis" ∷ "sqlite" ∷ [])) { by = bob; envelope_ref = "r2:envelope#1" }
    ∷ []

abbrev once : List String
once = "redis" ∷ []

abbrev twice : List String
twice = "sqlite" ∷ "sqlite" ∷ []

validate_ballot_iff_example : IsOk (validate_ballot options (vote twice)) ↔ (
    AllIn options twice
    × IsUnique twice
    × AllIn options ("redis" ∷ [])
    × ((is_empty twice && is_empty once) ≡ false))
validate_ballot_iff_example = validate_ballot_iff options (vote twice)

valid : AllValid options ballots
valid = (
  (validate_ballot_iff options (vote ("sqlite" ∷ "redis" ∷ []))).1
      ((refl, (refl, tt)), (refl, (refl, tt)), (refl, tt), refl),
  (
    (validate_ballot_iff options
          (record (vote ("redis" ∷ "sqlite" ∷ [])) { by = bob; envelope_ref = "r2:envelope#1" })).1
        ((refl, (refl, tt)), (refl, (refl, tt)), (refl, tt), refl),
    tt,
  ),
)

abbrev input : TallyInput
input = record {
  frozen = record { inputs = inputs; inputs_hash = "inputs" };
  ballots = ballots;
  partition = partition;
  contested = [];
  baseline = baseline;
  panel = panel;
  formulation_hash = "f";
  ballot_round_id = "round-2";
}

tally_iff_example : IsOk (tally digest input) ↔ (
    (is_blank "inputs" ≡ false)
    × (digest inputs ≡ digest inputs)
    × AllValid options ballots
    × (1 ≤ inputs.shortlist_size)
    × (1 ≤ length options))
tally_iff_example = tally_iff digest input

tallied : IsOk (tally digest input)
unfolding is_blank trim_space
tallied = (tally_iff digest input).1 (refl, refl, valid, omega arith, omega arith)

tally-perm_example : Perm (ids_of tallied.0.entries) options
tally-perm_example = tally-perm digest input tallied.0 tallied.1

tally-IsCounted_example : All (IsCounted ballots (length options)) tallied.0.entries
tally-IsCounted_example = tally-IsCounted digest input tallied.0 tallied.1

tally-shortlisted_example :
    min inputs.shortlist_size (length options) ≤ length (shortlisted tallied.0.entries)
tally-shortlisted_example = tally-shortlisted digest input tallied.0 tallied.1

tally-IsLabelled_example : All (IsLabelled input tallied.0.entries) (shortlisted tallied.0.entries)
tally-IsLabelled_example = tally-IsLabelled digest input tallied.0 tallied.1

tally-IsRankedIn_example : All (IsRankedIn tallied.0.entries) tallied.0.entries
tally-IsRankedIn_example = tally-IsRankedIn digest input tallied.0 tallied.1

-- Two ballots that leave the options with one standing.
abbrev even_vote : List String → Ballot
even_vote ranking = record (vote ranking) { approved = [] }

abbrev even : TallyInput
even = record input {
  ballots = even_vote ("sqlite" ∷ "redis" ∷ []) ∷ even_vote ("redis" ∷ "sqlite" ∷ []) ∷ [];
}

even_tallied : IsOk (tally digest even)
unfolding tally add_ballots add_ranking add_approved validate_ballot check_ranking check_approved
    ranked_entries sort_by insert_by text_lt better rank_entries rank_after decide conclude is_blank
    trim_space
even_tallied = (_, refl)

first : (e : DecisionEntry) × (get_elem? even_tallied.0.entries 0 ≡ some e)
unfolding even_tallied
first = (_, refl)

second : (e : DecisionEntry) × (get_elem? even_tallied.0.entries 1 ≡ some e)
unfolding even_tallied
second = (_, refl)

inside : (first.0.shortlisted ≡ true) × (outranks first.0 second.0 ≡ false)
unfolding first second even_tallied
inside = (refl, refl)

tally_fair_example : (second.0.shortlisted ≡ true) × (second.0.rank ≤ first.0.rank)
tally_fair_example =
    tally_fair digest even even_tallied.0 1 0 second.0 first.0 even_tallied.1 second.1 first.1
      inside.0 inside.1
