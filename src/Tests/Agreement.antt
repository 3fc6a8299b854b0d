-- ===== src/Tests/Agreement.antt =====
-- Two canonicalizers and a challenged partition on the sample.
use aimesh.Base.{
  none, is_empty, All, Bool, ◌∷◌, [], true, false, ◌≡◌, ◌↔◌, refl, String, List, some, length,
}
use aimesh.Base.Int.{pos}
use aimesh.Base.Outcome.{ok, err, IsOk}
use aimesh.Canon.Ledger.{Proposal, ContestedMerge, Ledger, new_ledger, append}
use aimesh.Base.Groups.{group, group_onto, add_to}
use aimesh.Base.Maps.{put, lookup}
use aimesh.Base.Number.{◌<>◌, decimal}
use aimesh.Base.Text.{trim_space, is_blank}
use aimesh.Schema.{ExplorerIdentity}
use aimesh.Canon.Build.{build_ledger, add_clusters, add_cluster, add_members, check_assigned}
use aimesh.Canon.Splits
use aimesh.Canon.Splits.{
  assignment_of, map_clusters, map_members, held_ids, member_key, apply_splits, split_all,
  split_entity, split_parts,
}
use aimesh.Canon.Build.Gate.{IsPartition}
use aimesh.Canon.View.{Member, Result}
use aimesh.Canon.Dual.{
  assignments, assign_clusters, assign_members, settled, intersect, agreed_cluster,
}
use aimesh.Canon.Dual.Housed.{assignments_iff}
use aimesh.Canon.Agreement.{canonicalize_dual, Canonicalizer, dual_job}
use aimesh.Canon.Agreement.Common.{IsAgreement, canonicalize_dual-IsAgreement}
use aimesh.Canon.Agreement.Total.{canonicalize_dual_total}
use aimesh.Canon.Challenge.{Challenge, wrong_merge, validate_challenge}
use aimesh.Canon.Presented.{Presentation}
use aimesh.Canon.Confirmation.{confirm, judge_challenges, no_review, known_ids, revision_job}
use aimesh.Canon.Confirmation.Revised.{IsRevision, confirm-IsRevision}
use aimesh.Canon.Confirmation.Answered.{confirm-answers}
use aimesh.Canon.Confirmation.Total.{confirm-panics_iff, confirm_total}
use aimesh.Tests.Sample.{ann, bob, noms, clusters, sample_digest, proposal}

abbrev other_proposal : Proposal
other_proposal = record proposal {
  clusters =
      record { canonical_id = "cache"; name = "Cache"; members = pos 0 ∷ [] }
      ∷ record { canonical_id = "store"; name = "Store"; members = pos 1 ∷ pos 2 ∷ [] }
      ∷ [];
  decided_by_call = "call-2";
  decided_by_identity = bob;
}

abbrev first : Canonicalizer
first ns = ok proposal

abbrev second : Canonicalizer
second ns = ok other_proposal

valid_first : IsOk (assignments noms clusters)
unfolding assignments assign_clusters assign_members settled trim_space is_blank
valid_first = (_, refl)

valid_second : IsOk (assignments noms other_proposal.clusters)
unfolding assignments assign_clusters assign_members settled trim_space is_blank
valid_second = (_, refl)

both_kept : IsOk (
    build_ledger
      (dual_job sample_digest noms proposal other_proposal)
      (intersect clusters other_proposal.clusters valid_first.0 valid_second.0))
unfolding valid_first valid_second intersect agreed_cluster group group_onto add_to build_ledger
    add_clusters add_cluster add_members check_assigned new_ledger append trim_space is_blank ◌<>◌
both_kept = (_, refl)

agreed : IsOk (canonicalize_dual sample_digest noms first second)
agreed =
    canonicalize_dual_total sample_digest noms first second proposal refl other_proposal refl
      valid_first.0 valid_second.0 valid_first.1 valid_second.1 both_kept.0 both_kept.1

assignments_iff_example : IsOk (assignments noms clusters) ↔ IsPartition noms clusters
assignments_iff_example = assignments_iff noms clusters

canonicalize_dual-IsAgreement_example :
    (a : Proposal) × (b : Proposal) × (first noms ≡ ok a)
    × (second noms ≡ ok b)
    × IsAgreement sample_digest noms a b agreed.0
canonicalize_dual-IsAgreement_example =
    canonicalize_dual-IsAgreement sample_digest noms first second agreed.0 agreed.1

abbrev member : String → Bool → String → ExplorerIdentity → String → Member
member id single raw who ref = record {
  canonical_id = id;
  raw_nomination = raw;
  source_explorer = who;
  envelope_ref = ref;
  single_source = single;
}

abbrev provisional_ledger : Ledger
provisional_ledger = record {
  rows = [];
  contested = [];
  revision = 1;
  prior = "";
  revision_hash = "head";
}

abbrev challenges : List Challenge
challenges =
    record {
      type = wrong_merge;
      canonical_id = "redis";
      other_canonical_id = "";
      raw_nomination = "";
      reason = "two things";
      by = ann;
    }
    ∷ []

abbrev presentation : Presentation
presentation = record { order = "redis" ∷ "sqlite" ∷ []; seed = "s"; rule_version = "r" }

abbrev in_order : List String → List String
in_order ids = ids

abbrev no_reason : ContestedMerge → String
no_reason m = ""

-- The result that is confirmed: what `canonicalize` returns for the sample.
abbrev provisional : Result
provisional = record {
  clusters =
      record {
        canonical_id = "redis";
        name = "Redis";
        members =
            member "redis" false "redis" ann "envelope#0"
            ∷ member "redis" false "Redis" bob "envelope#1"
            ∷ [];
        single_source = false;
      }
      ∷ record {
        canonical_id = "sqlite";
        name = "SQLite";
        members = member "sqlite" true "sqlite" bob "envelope#1" ∷ [];
        single_source = true;
      }
      ∷ [];
  proposed_dimensions = [];
  coverage_notes = "";
  partition_revision_hash = "head";
  ledger = some provisional_ledger;
  canonicalizers = [];
  agreement_rule_version = "";
  nominations = noms;
}

held_in : IsOk (assignment_of provisional)
unfolding assignment_of map_clusters map_members held_ids member_key lookup put ◌<>◌
held_in = (_, refl)

judged : IsOk (judge_challenges (known_ids provisional) provisional held_in.0 challenges no_review)
unfolding judge_challenges validate_challenge is_blank trim_space
judged = (_, refl)

revised : IsOk (
    build_ledger
      (revision_job sample_digest provisional provisional_ledger)
      (apply_splits provisional held_in.0 judged.0.split_targets))
unfolding held_in judged apply_splits split_all split_entity split_parts group group_onto add_to
    build_ledger add_clusters add_cluster add_members check_assigned new_ledger append trim_space
    is_blank ◌<>◌ decimal
revised = (_, refl)

confirmed : IsOk (confirm sample_digest in_order no_reason provisional presentation challenges)
confirmed =
    confirm_total sample_digest in_order no_reason provisional presentation challenges refl
      held_in.0 held_in.1 judged.0 judged.1 provisional_ledger refl revised.0 revised.1

confirm-IsRevision_example : IsRevision sample_digest provisional challenges confirmed.0
confirm-IsRevision_example =
    confirm-IsRevision sample_digest in_order no_reason provisional presentation challenges
      confirmed.0 confirmed.1

confirm-answers_example : length confirmed.0.resolutions ≡ length challenges
confirm-answers_example =
    confirm-answers sample_digest in_order no_reason provisional presentation challenges confirmed.0
      (λ ids u. (u, λ id. refl)) confirmed.1

-- The same result without a ledger.
abbrev unkept : Result
unkept = record provisional { ledger = none }

confirm-panics_iff_example :
    (confirm sample_digest in_order no_reason unkept presentation challenges ≡ err Splits.panics)
    ↔ ((is_empty noms ≡ false)
        × IsOk (assignment_of unkept)
        × All (λ ch. IsOk (validate_challenge (known_ids unkept) ch)) challenges
        × (unkept.ledger ≡ none))
confirm-panics_iff_example =
    confirm-panics_iff sample_digest in_order no_reason unkept presentation challenges
