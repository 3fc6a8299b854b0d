-- ===== src/Tests/Sample.antt =====
-- The inputs of the tests: two explorers, three nominations and what is built from them.
use aimesh.Base.{ℕ, String, true, List, [], ◌∷◌, none}
use aimesh.Base.Int.{pos}
use aimesh.Schema.{ExplorerIdentity, Envelope, verified}
use aimesh.Canon.Ledger.{Nomination, ProposedCluster, Proposal, Digest}
use aimesh.Round.{Round}
use aimesh.Govern.Policy.{CountingPolicy, Panel, Participation, default_counting_policy}
use aimesh.Govern.Baseline.{BlindBaseline}

abbrev pub ann : ExplorerIdentity
ann = record { adapter = "cli"; model = "ann"; effort = "high" }

abbrev pub bob : ExplorerIdentity
bob = record { adapter = "cli"; model = "bob"; effort = "low" }

abbrev pub noms : List Nomination
noms =
    record { raw = "redis"; source_explorer = ann; envelope_ref = "envelope#0" }
    ∷ record { raw = "Redis"; source_explorer = bob; envelope_ref = "envelope#1" }
    ∷ record { raw = "sqlite"; source_explorer = bob; envelope_ref = "envelope#1" }
    ∷ []

abbrev pub clusters : List ProposedCluster
clusters =
    record { canonical_id = "redis"; name = "Redis"; members = pos 0 ∷ pos 1 ∷ [] }
    ∷ record { canonical_id = "sqlite"; name = "SQLite"; members = pos 2 ∷ [] }
    ∷ []

abbrev pub sample_digest : Digest
sample_digest = record { row = λ h r. r.raw_nomination; merge = λ h c. c.resolution }

abbrev pub proposal : Proposal
proposal = record {
  clusters = clusters;
  proposed_dimensions = [];
  coverage_notes = "";
  decided_by_call = "call-1";
  decided_by_identity = ann;
}

abbrev pub envelope : ExplorerIdentity → ℕ → Envelope
envelope who order = record {
  id = "e";
  identity = who;
  identity_status = verified;
  identity_evidence = "";
  identity_caveat = "";
  order = order;
  payload_hash = "p";
  response = [];
  raw_response = [];
  repairs = [];
}

abbrev pub first_round : Round
first_round = record {
  index = 1;
  blind = true;
  id = "round-1";
  payload_hash = "p";
  envelopes = envelope ann 0 ∷ envelope bob 1 ∷ [];
  carried = none;
}

abbrev pub baseline : BlindBaseline
baseline = record { round_id = "round-1"; refs = ("envelope#0", ann) ∷ ("envelope#1", bob) ∷ [] }

abbrev pub policy_digest : CountingPolicy → String
policy_digest p = "policy"

abbrev pub everyone : Participation
everyone = record { dispatched = 2; eligible = 2; technical_absence = 0; deliberate_abstention = 0 }

abbrev pub panel : Panel
panel = record {
  members = ann ∷ bob ∷ [];
  selected = 2;
  policy = default_counting_policy;
  policy_hash = "policy";
  outcome = everyone;
}
