-- ===== src/Tests/Canonical.antt =====
-- The partition gate and the references on the sample.
use aimesh.Base.{◌∷◌, [], true, false, ℕ, ◌≡◌, ◌↔◌, ◌⊎◌, ◌≤◌, ◌≢◌, refl, String, List}
use aimesh.Base.Chain.{Collision, Returns}
use aimesh.Base.Outcome.{Outcome, ok, IsOk}
use aimesh.Base.Text.{trim_space, is_blank}
use aimesh.Schema.Refs.{envelope_ref-injective}
use aimesh.Canon.Ledger.{Nomination, Proposal, Ledger, new_ledger, append}
use aimesh.Canon.Build.{Job, build_ledger, add_members, add_cluster, add_clusters, check_assigned}
use aimesh.Canon.Build.Gate.{IsPartition, build_ledger_iff, build_ledger-Recorded, Recorded}
use aimesh.Canon.Build.Pins.{build_ledger_pins}
use aimesh.Canon.View.{proposal_job, canonicalize}
use aimesh.Canon.View.Accepts.{canonicalize-Canonicalized, Canonicalized, canonicalize_total}
use aimesh.Canon.Challenge.{Challenge, wrong_split, missing_item, is_valid, validate_challenge}
use aimesh.Canon.Challenge.Valid.{IsPresented, validate_challenge_iff}
use aimesh.Tests.Sample.{ann, noms, clusters, sample_digest, proposal}

abbrev job : Job
job = proposal_job sample_digest noms proposal

abbrev propose : List Nomination → Outcome String Proposal
propose ns = ok proposal

abbrev second : ℕ
second = 2

abbrev place : ℕ
place = 7

built : IsOk (build_ledger job clusters)
unfolding build_ledger add_clusters add_cluster add_members check_assigned new_ledger append
    trim_space is_blank
built = (_, refl)

build_ledger_iff_example : IsOk (build_ledger job clusters) ↔ IsPartition noms clusters
build_ledger_iff_example = build_ledger_iff job clusters

build_ledger-Recorded_example : Recorded job clusters built.0
build_ledger-Recorded_example = build_ledger-Recorded job clusters built.0 built.1

build_ledger_pins_example :
    (built.0.rows ≡ built.0.rows) ⊎ (Collision sample_digest.row ⊎ Returns sample_digest.row "")
build_ledger_pins_example =
    build_ledger_pins job clusters clusters built.0 built.0 built.1 built.1 refl

accepted : IsOk (canonicalize sample_digest noms propose)
accepted =
    canonicalize_total sample_digest noms propose proposal refl
      ((build_ledger_iff job clusters).0 built)

canonicalize-Canonicalized_example :
    (p : Proposal) × (led : Ledger) × Canonicalized sample_digest noms propose p led accepted.0
canonicalize-Canonicalized_example =
    canonicalize-Canonicalized sample_digest noms propose accepted.0 accepted.1

envelope_ref-injective_example :
    (((second ≤ 1) × (second ≤ 1)) ⊎ (second ≡ second)) × (place ≡ place)
envelope_ref-injective_example = envelope_ref-injective second second place place refl

abbrev challenge : Challenge
challenge = record {
  type = wrong_split;
  canonical_id = "redis";
  other_canonical_id = "sqlite";
  raw_nomination = "";
  reason = "same store";
  by = ann;
}

abbrev known : List String
known = "redis" ∷ "sqlite" ∷ []

validate_challenge_iff_example : IsOk (validate_challenge known challenge) ↔ (
    (is_valid wrong_split ≡ true)
    × (is_blank "same store" ≡ false)
    × (wrong_split ≢ missing_item → IsPresented known "redis")
    × (wrong_split ≡ wrong_split
        → IsPresented known "sqlite" × (challenge.other_canonical_id ≢ challenge.canonical_id)))
validate_challenge_iff_example = validate_challenge_iff known challenge
