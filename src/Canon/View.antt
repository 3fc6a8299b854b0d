-- ===== src/Canon/View.antt =====
-- `partitionView` and `Canonicalize` of canon.go: the clusters as a view of the accepted partition.
pub mod Rows
pub mod Accepts
use aimesh.Base.{ℕ, String, Bool, List, [], ◌∷◌, ◌++◌, Option, none, some, eqb, map}
use aimesh.Base.Int.{ℤ}
use aimesh.Base.Outcome.{Outcome, ok, err, ◌>>=◌, wrap_err, or_refuse}
use aimesh.Base.Sets.{distinct_count}
use aimesh.Schema.{ExplorerIdentity, ExplorerIdentity_comparable}
use aimesh.Canon.Ledger.{
  Nomination, ProposedCluster, Proposal, Attribution, LedgerRow, Ledger, Digest,
}
use aimesh.Canon.Build.{GateError, Job, nomination_at, build_ledger}

pub record Member : Type 0 where
  pub canonical_id : String
  pub raw_nomination : String
  pub source_explorer : ExplorerIdentity
  pub envelope_ref : String
  pub single_source : Bool

pub record Cluster : Type 0 where
  pub canonical_id : String
  pub name : String
  pub members : List Member
  pub single_source : Bool

pub record Result : Type 0 where
  pub clusters : List Cluster
  pub proposed_dimensions : List String
  pub coverage_notes : String
  pub partition_revision_hash : String
  pub ledger : Option Ledger
  pub canonicalizers : List Attribution
  pub agreement_rule_version : String
  pub nominations : List Nomination

-- `noms[idx]` for each member; nothing stands for Go's panic at an index out of range.
nominations_at : List Nomination → List ℤ → Option (List Nomination)
nominations_at noms [] = some []
nominations_at noms (m ∷ ms) =
    let rest = nominations_at noms ms in
    elim (nomination_at noms m) [
      | none ↦ none
      | some n ↦ elim rest [ none ↦ none | some ns ↦ some (n ∷ ns) ]
    ]

abbrev pub member_of : String → Bool → Nomination → Member
member_of id single n = record {
  canonical_id = id;
  raw_nomination = n.raw;
  source_explorer = n.source_explorer;
  envelope_ref = n.envelope_ref;
  single_source = single;
}

abbrev pub sources_of : List Nomination → List ExplorerIdentity
sources_of = map λ n. n.source_explorer

abbrev pub is_single : List Nomination → Bool
is_single ns = eqb (distinct_count (sources_of ns)) 1

abbrev pub cluster_of : ProposedCluster → List Nomination → Cluster
cluster_of c ns = record {
  canonical_id = c.canonical_id;
  name = c.name;
  members = map (member_of c.canonical_id (is_single ns)) ns;
  single_source = is_single ns;
}

unfoldable pub partition_view : List Nomination → List ProposedCluster → Option (List Cluster)
unfolding nominations_at
partition_view noms [] = some []
partition_view noms (c ∷ cs) =
    let rest = partition_view noms cs in
    elim (nominations_at noms c.members) [
      | none ↦ none
      | some ns ↦ elim rest [ none ↦ none | some out ↦ some (cluster_of c ns ∷ out) ]
    ]

-- How `Canonicalize` ends without a result.
pub data CanonError : Type 0 where
  proposal_failed : String → CanonError
  refused : GateError → CanonError
  -- Go's run-time panic, which never happens here
  panics : CanonError

abbrev pub attributed : Proposal → LedgerRow → LedgerRow
attributed p r = record r {
  decided_by_call = p.decided_by_call;
  decided_by_identity = p.decided_by_identity;
}

abbrev pub proposal_job : Digest → List Nomination → Proposal → Job
proposal_job digest noms p = record {
  digest = digest;
  nominations = noms;
  revision = 1;
  prior = "";
  stamp = attributed p;
}

abbrev pub result_of : Proposal → Ledger → List Cluster → Result
result_of p led clusters = record {
  clusters = clusters;
  proposed_dimensions = p.proposed_dimensions;
  coverage_notes = p.coverage_notes;
  partition_revision_hash = led.revision_hash;
  ledger = some led;
  canonicalizers = [];
  agreement_rule_version = "";
  nominations = [];
}

-- `propose` is the canonicalizer call, which answers with a proposal or an error.
unfoldable pub canonicalize :
    Digest
    → List Nomination
    → (List Nomination → Outcome String Proposal)
    → Outcome CanonError Result
canonicalize digest noms propose = do
  p ← wrap_err proposal_failed (propose noms)
  led ← wrap_err refused (build_ledger (proposal_job digest noms p) p.clusters)
  clusters ← or_refuse (partition_view noms p.clusters) panics
  ok (result_of p led clusters)
