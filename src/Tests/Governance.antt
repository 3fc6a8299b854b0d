-- ===== src/Tests/Governance.antt =====
-- The baseline, the panel and the corroboration claim on the sample.
use aimesh.Base.{
  All, max, ℕ, ◌≡◌, ◌↔◌, ◌≤◌, ◌⊎◌, refl, length, String, true, false, ◌&&◌, List, [], ◌∷◌, none,
  some, arith, String_comparable,
}
use aimesh.Base.Chain.{Collision, Returns}
use aimesh.Base.Maps.{has_key}
use aimesh.Base.Outcome.{IsOk}
use aimesh.Base.Text.{is_blank, trim_space}
use aimesh.Base.Sets.{contains}
use aimesh.Schema.{ExplorerIdentity_comparable, envelope_ref}
use aimesh.Canon.Contested.{
  ContestedMapping, ContestedDirection, alternative_joins, alternative_separates, AlternativeEntity,
  wrong_split_challenge,
}
use aimesh.Canon.View.{Cluster, Result, Member}
use aimesh.Govern.Policy.{freeze, default_counting_policy, quorum_met}
use aimesh.Govern.Policy.Quorum.{freeze_iff}
use aimesh.Govern.Baseline.{new_blind_baseline, contains_ref, size}
use aimesh.Govern.Baseline.Blind.{new_blind_baseline_iff, later_round-excluded}
use aimesh.Govern.Claim.{Claim, definitive, corroborated, Sensitivity}
use aimesh.Govern.Claim.Emitted.{emit_all_pins}
use aimesh.Govern.Corroborate.{
  CountInput, corroboration, find_cluster, sensitivity, range_over, range_of, alternative_bound,
  alternative_step, count_baseline_sources, member_refs, dedupe, dedupe_from,
}
use aimesh.Govern.Corroborate.Counts.{
  corroboration_iff, corroboration-cites, corroboration-le-selected, corroboration-label,
}
use aimesh.Govern.Corroborate.Looped.{AllBelow, AllAbove}
use aimesh.Govern.Corroborate.Ranges.{
  sensitivity-joins, sensitivity-separates, sensitivity-separates_last,
}
use aimesh.Govern.Estimate.{EstimateClaimInput, estimate_claim}
use aimesh.Govern.Estimate.Forecasters.{estimate_claim_lem}
use aimesh.Tests.Sample.{ann, bob, first_round, baseline, panel, policy_digest}

frozen : IsOk (freeze policy_digest (ann ∷ bob ∷ []) default_counting_policy)
unfolding is_blank trim_space
frozen =
    (freeze_iff policy_digest (ann ∷ bob ∷ []) default_counting_policy).1
      (refl, record { versioned = refl; quorum = omega arith; ties = refl; missing = refl })

abbrev needed : ℕ
needed = 2

blind : IsOk (new_blind_baseline first_round)
blind = (new_blind_baseline_iff first_round).1 (refl, refl, refl)

later_round-excluded_example : contains_ref blind.0 (envelope_ref 2 1) ≡ false
later_round-excluded_example = later_round-excluded first_round blind.0 2 1 blind.1 (omega arith)

abbrev member : String → Member
member ref = record {
  canonical_id = "redis";
  raw_nomination = "redis";
  source_explorer = ann;
  envelope_ref = ref;
  single_source = false;
}

abbrev redis : Cluster
redis = record {
  canonical_id = "redis";
  name = "Redis";
  members =
      member "envelope#0"
      ∷ record (member "envelope#1") { source_explorer = bob }
      ∷ member "r2:envelope#0"
      ∷ [];
  single_source = false;
}

abbrev partition : Result
partition = record {
  clusters = redis ∷ [];
  proposed_dimensions = [];
  coverage_notes = "";
  partition_revision_hash = "head";
  ledger = none;
  canonicalizers = [];
  agreement_rule_version = "";
  nominations = [];
}

abbrev input : List ContestedMapping → CountInput
input contested = record {
  baseline = baseline;
  partition = partition;
  contested = contested;
  canonical_id = "redis";
  panel = panel;
  formulation_hash = "f";
}

claimed : IsOk (corroboration (input []))
unfolding size
claimed = (corroboration_iff (input [])).1 (omega arith, refl)

found : find_cluster "redis" partition.clusters ≡ some redis
unfolding find_cluster
found = refl

corroboration-cites_example : contains claimed.0.contributing_source_ids "r2:envelope#0" ≡ (
    contains_ref baseline "r2:envelope#0" && contains (member_refs redis.members) "r2:envelope#0")
corroboration-cites_example =
    corroboration-cites (input []) redis claimed.0 "r2:envelope#0" found claimed.1

corroboration-le-selected_example : claimed.0.value ≤ needed
corroboration-le-selected_example =
    corroboration-le-selected (input []) redis claimed.0 found refl (λ who h. ground (arith, h))
      claimed.1

corroboration-label_example :
    ((definitive claimed.0.label ≡ true) ↔ (Unit {0} × (quorum_met panel ≡ true)))
    × ((claimed.0.label ≡ corroborated)
        ↔ (Unit {0} × (quorum_met panel ≡ true) × (needed ≤ claimed.0.value)))
corroboration-label_example = corroboration-label (input []) claimed.0 claimed.1

emit_all_pins_example :
    (claimed.0 ∷ [] ≡ claimed.0 ∷ [])
    ⊎ (Collision (λ (h : String) (c : Claim). c.subject)
        ⊎ Returns (λ (h : String) (c : Claim). c.subject) "")
emit_all_pins_example = emit_all_pins (λ h c. c.subject) (claimed.0 ∷ []) (claimed.0 ∷ []) refl

abbrev both : AlternativeEntity
both = record {
  label = "redis+rds";
  raw_nominations = [];
  contributions =
      record { source_explorer = ann; envelope_ref = "envelope#0" }
      ∷ record { source_explorer = bob; envelope_ref = "envelope#1" }
      ∷ [];
}

abbrev only_ann : AlternativeEntity
only_ann = record {
  label = "redis @ ann";
  raw_nominations = [];
  contributions = record { source_explorer = ann; envelope_ref = "envelope#0" } ∷ [];
}

abbrev mapping : ContestedDirection → AlternativeEntity → ContestedMapping
mapping d e = record {
  held_canonical_ids = "redis" ∷ "rds" ∷ [];
  alternative_entities = e ∷ [];
  direction = d;
  source = wrong_split_challenge;
  reason = "same";
  raised_by = bob ∷ [];
  rule_version = "v1";
}

abbrev joining : CountInput
joining = input (mapping alternative_joins both ∷ [])

abbrev separating : CountInput
separating = input (mapping alternative_separates only_ann ∷ [])

abbrev disputed : CountInput
disputed = input (mapping alternative_joins both ∷ mapping alternative_separates only_ann ∷ [])

abbrev IsRanged : CountInput → ℕ → Type 0
IsRanged i held = (s : Sensitivity) × (sensitivity i held ≡ some s)

joined : IsRanged joining 1
unfolding sensitivity range_over range_of alternative_bound alternative_step count_baseline_sources
    contains_ref has_key dedupe dedupe_from
joined = (_, refl)

separated : IsRanged separating 2
unfolding sensitivity range_over range_of alternative_bound alternative_step count_baseline_sources
    contains_ref has_key dedupe dedupe_from
separated = (_, refl)

doubted : IsRanged disputed 1
unfolding sensitivity range_over range_of alternative_bound alternative_step count_baseline_sources
    contains_ref has_key dedupe dedupe_from
doubted = (_, refl)

abbrev one : ℕ
one = 1

sensitivity-joins_example :
    (joined.0.low ≡ one) × AllBelow baseline "redis" joined.0.high joining.contested
sensitivity-joins_example = sensitivity-joins joining 1 joined.0 (λ h. refl, tt) joined.1

sensitivity-separates_example :
    (separated.0.high ≡ needed) × AllAbove baseline "redis" separated.0.low separating.contested
sensitivity-separates_example =
    sensitivity-separates separating 2 separated.0 (λ h. refl, tt) separated.1

counts :
    (count_baseline_sources baseline only_ann ≡ one)
    × (count_baseline_sources baseline both ≡ needed)
unfolding count_baseline_sources contains_ref has_key
counts = (refl, refl)

sensitivity-separates_last_example :
    All (λ ae. doubted.0.high ≤ max one (count_baseline_sources baseline ae)) (only_ann ∷ [])
sensitivity-separates_last_example =
    sensitivity-separates_last disputed 1 doubted.0 (mapping alternative_joins both ∷ []) []
      (mapping alternative_separates only_ann) refl refl ((λ h. refl), tt) doubted.1

abbrev forecast : EstimateClaimInput
forecast = record {
  target = "load";
  unit = "rps";
  baseline = baseline;
  panel = panel;
  formulation_hash = "f";
  envelope_refs = "envelope#0" ∷ "r2:envelope#0" ∷ [];
  sources = ann ∷ bob ∷ ann ∷ [];
}

estimated : IsOk (estimate_claim forecast)
unfolding estimate_claim size
estimated = (_, refl)

estimate_claim_lem_example :
    (contains estimated.0.contributing_source_ids "envelope#0"
      ≡ (contains_ref baseline "envelope#0" && contains forecast.envelope_refs "envelope#0"))
    × (estimated.0.value ≡ length (ann ∷ bob ∷ []))
    × ((definitive estimated.0.label ≡ true) ↔ (quorum_met panel ≡ true))
    × ((estimated.0.label ≡ corroborated)
        ↔ ((quorum_met panel ≡ true) × (needed ≤ estimated.0.value)))
estimate_claim_lem_example =
    estimate_claim_lem forecast estimated.0 "envelope#0" (ann ∷ bob ∷ []) (refl, (refl, tt))
      (λ a. ground arith) estimated.1
