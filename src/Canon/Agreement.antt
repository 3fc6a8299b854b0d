-- ===== src/Canon/Agreement.antt =====
-- dual.go: `CanonicalizeDual`, and the record of the merges that the agreement refused.
pub mod Held
pub mod Agreed
pub mod Apart
pub mod Common
pub mod Total
use aimesh.Base.{
  ℕ, String, Bool, true, false, not, ◌&&◌, ◌||◌, List, [], ◌∷◌, ◌++◌, map, Option, none, some,
  length, ltb, String_comparable, if◌then◌else◌,
}
use aimesh.Base.Int.{ℤ, ℤ_comparable}
use aimesh.Base.Number.{◌<>◌}
use aimesh.Base.Order.{sort_texts}
use aimesh.Base.Outcome.{Outcome, ok, err, ◌>>=◌, or_refuse, wrap_err}
use aimesh.Base.Sets.{contains, key_set}
use aimesh.Base.Text.{is_blank}
use aimesh.Canon.Ledger.{
  Nomination, ProposedCluster, Proposal, Attribution, ContestedMerge, LedgerRow, Ledger, Digest,
  append_contested,
}
use aimesh.Canon.Build.{GateError, Job, nomination_at, build_ledger}
use aimesh.Canon.View.{Cluster, Result, partition_view}
use aimesh.Canon.Dual.{AssignError, assignments, intersect, dual_rule_version, resolution_split}

-- `held[idx]`: the id of the last cluster that holds the index, or "".
unfoldable pub held : List ProposedCluster → ℤ → String → String
held [] idx id = id
held (c ∷ cs) idx id = held cs idx (if contains c.members idx then c.canonical_id else id)

-- `noms[idx].Raw` for each member; nothing stands for Go's panic at an index out of range.
unfoldable pub raws_of : List Nomination → List ℤ → Option (List String)
raws_of noms [] = some []
raws_of noms (m ∷ ms) =
    let rest = raws_of noms ms in
    elim (nomination_at noms m) [
      | none ↦ none
      | some n ↦ elim rest [ none ↦ none | some rs ↦ some (n.raw ∷ rs) ]
    ]

-- The keys of `ids` in `contestedMerges`.
abbrev pub landed : List ProposedCluster → ProposedCluster → List String
landed agreed c = key_set (map (λ idx. held agreed idx "") c.members)

abbrev pub refused_merge :
    List ProposedCluster → Attribution → ProposedCluster → List String → ContestedMerge
refused_merge agreed by c raws = record {
  proposed_by = by;
  proposed_canonical_id = c.canonical_id;
  proposed_name = c.name;
  raw_nominations = raws;
  split_into = sort_texts (landed agreed c);
  resolution = resolution_split;
  rule_version = dual_rule_version;
}

unfoldable pub contested_merges :
    List Nomination
    → List ProposedCluster
    → List ProposedCluster
    → Attribution
    → Option (List ContestedMerge)
unfolding raws_of
contested_merges noms [] agreed by = some []
contested_merges noms (c ∷ cs) agreed by =
    let rest = contested_merges noms cs agreed by in
    if ltb (length (landed agreed c)) 2 then rest else elim (raws_of noms c.members) [
      | none ↦ none
      | some raws ↦ elim rest [
        | none ↦ none
        | some out ↦ some (refused_merge agreed by c raws ∷ out)
      ]
    ]

-- The loop of `mergeDimensions`; `seen` holds what was taken before.
unfoldable pub union_from : List String → List String → List String
union_from seen [] = []
union_from seen (s ∷ ss) = elim (is_blank s || contains seen s) [
  | true ↦ union_from seen ss
  | false ↦ s ∷ union_from (s ∷ seen) ss
]

unfoldable pub merge_dimensions : List String → List String → List String
unfolding union_from
merge_dimensions a b = union_from [] (a ++ b)

unfoldable pub merge_coverage_notes : String → String → String
unfolding ◌<>◌
merge_coverage_notes a b =
    if is_blank a && is_blank b
    then ""
    else if is_blank b
    then "canonicalizer A: " <> a
    else if is_blank a
    then "canonicalizer B: " <> b
    else "canonicalizer A: " <> (a <> ("\ncanonicalizer B: " <> b))

-- `for _, cm := range ... { led.appendContested(cm) }`
abbrev pub append_all_contested : Digest → List ContestedMerge → Ledger → Ledger
append_all_contested digest [] led = led
append_all_contested digest (m ∷ ms) led =
    append_all_contested digest ms (append_contested digest led m)

-- How `CanonicalizeDual` ends without a result; A is the first canonicalizer and B the second.
pub data DualError : Type 0 where
  proposal_failed_a proposal_failed_b : String → DualError
  invalid_a invalid_b : AssignError → DualError
  refused : GateError → DualError
  -- Go's run-time panic
  panics : DualError

abbrev pub attribution_of : Proposal → Attribution
attribution_of p = record { call = p.decided_by_call; identity = p.decided_by_identity }

abbrev pub agreed_by : Proposal → Proposal → LedgerRow → LedgerRow
unfolding ◌<>◌
agreed_by a b r = record r {
  decided_by_call = "host:host-dual-merge-agreement@v1";
  agreed_by = attribution_of a ∷ attribution_of b ∷ [];
}

abbrev pub dual_job : Digest → List Nomination → Proposal → Proposal → Job
dual_job digest noms a b = record {
  digest = digest;
  nominations = noms;
  revision = 1;
  prior = "";
  stamp = agreed_by a b;
}

abbrev pub dual_result : List Nomination → Proposal → Proposal → Ledger → List Cluster → Result
dual_result noms a b led clusters = record {
  clusters = clusters;
  proposed_dimensions = merge_dimensions a.proposed_dimensions b.proposed_dimensions;
  coverage_notes = merge_coverage_notes a.coverage_notes b.coverage_notes;
  partition_revision_hash = led.revision_hash;
  ledger = some led;
  canonicalizers = attribution_of a ∷ attribution_of b ∷ [];
  agreement_rule_version = dual_rule_version;
  nominations = noms;
}

abbrev pub Canonicalizer : Type 0
Canonicalizer = List Nomination → Outcome String Proposal

unfoldable pub canonicalize_dual :
    Digest → List Nomination → Canonicalizer → Canonicalizer → Outcome DualError Result
canonicalize_dual digest noms first second = do
  a ← wrap_err proposal_failed_a (first noms)
  b ← wrap_err proposal_failed_b (second noms)
  homes_a ← wrap_err invalid_a (assignments noms a.clusters)
  homes_b ← wrap_err invalid_b (assignments noms b.clusters)
  let agreed = intersect a.clusters b.clusters homes_a homes_b
  led ← wrap_err refused (build_ledger (dual_job digest noms a b) agreed)
  from_a ← or_refuse (contested_merges noms a.clusters agreed (attribution_of a)) panics
  from_b ← or_refuse (contested_merges noms b.clusters agreed (attribution_of b)) panics
  clusters ← or_refuse (partition_view noms agreed) panics
  let chained = append_all_contested digest from_b (append_all_contested digest from_a led)
  ok (dual_result noms a b chained clusters)
