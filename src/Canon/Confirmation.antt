-- ===== src/Canon/Confirmation.antt =====
-- confirm.go: `Confirm`, which resolves the challenges by the host's rule and revises the partition.
pub mod Revised
pub mod Answered
pub mod Total
use aimesh.Base.{
  ℕ, suc, String, Bool, true, false, not, ◌&&◌, ◌||◌, List, [], ◌∷◌, ◌++◌, map, Option, none, some,
  keep, is_empty, ◌==◌, String_comparable, Comparable, if◌then◌else◌,
}
use aimesh.Base.Number.{◌<>◌}
use aimesh.Base.Order.{sort_by}
use aimesh.Base.Outcome.{Outcome, ok, err, ◌>>=◌, ◌>>◌, refuse, or_refuse, wrap_err}
use aimesh.Base.Sets.{contains, insert}
use aimesh.Base.Text.{text_lt}
use aimesh.Schema.{ExplorerIdentity, ExplorerIdentity_comparable}
use aimesh.Canon.Ledger.{
  Nomination, ProposedCluster, Attribution, ContestedMerge, LedgerRow, Ledger, Digest, revision_of,
}
use aimesh.Canon.Build.{Job, build_ledger}
use aimesh.Canon.View.{Cluster, Result, partition_view}
use aimesh.Canon.Contested.{
  ContestedSource, dual_disagreement, wrong_split_challenge, unsplittable_merge, alternative_joins,
  alternative_separates, Contribution, AlternativeEntity, ContestedMapping,
}
use aimesh.Canon.Challenge.{
  ChallengeType, wrong_merge, wrong_split, label_bias, Challenge, validate_challenge,
}
use aimesh.Canon.Splits.{
  ConfirmError, no_nominations, bad_challenge, revision_refused, panics, assignment_of, entities,
  overruns, apply_splits, SplitDetail, no_detail, unsplittable, split_into, split_detail,
}
use aimesh.Canon.Presented.{host_confirmation_rule_version, Presentation}
use aimesh.Canon.Disputed.{
  join_texts, with_held, contribution, alternative, join_contested, first_seen, alternative_by,
  separate_contested, is_wrong_merge, merge_challenges_for, challenge_reasons, challengers,
}

pub data Action : Type 0 where
  action_split recorded_no_split_possible recorded_no_merge recorded_label_only
        recorded_no_injection :
      Action

-- What the text of a resolution tells.
pub data Detail : Type 0 where
  stay_separate : String → String → Detail
  label_carries_no_count gate_holds : Detail
  only_identical : String → Detail
  split_parts_of : String → SplitDetail → Detail

pub record Resolution : Type 0 where
  pub challenge : Challenge
  pub action : Action
  pub detail : Detail
  pub rule_version : String

pub record Confirmation : Type 0 where
  pub presentation : Presentation
  pub challenges : List Challenge
  pub resolutions : List Resolution
  pub revision : Result
  pub prior_revision_hash : String
  pub contested : List ContestedMapping
  pub rule_version : String

abbrev pub resolution : Challenge → Action → Detail → Resolution
resolution ch action detail = record {
  challenge = ch;
  action = action;
  detail = detail;
  rule_version = host_confirmation_rule_version;
}

-- What the loops of `Confirm` have gathered.
pub record Review : Type 0 where
  pub resolutions : List Resolution
  pub contested : List ContestedMapping
  pub split_targets : List String

abbrev pub resolve : Resolution → Review → Review
resolve x v = record v { resolutions = v.resolutions ++ (x ∷ []) }

abbrev pub contest : ContestedMapping → Review → Review
contest m v = record v { contested = v.contested ++ (m ∷ []) }

-- The switch of the first loop, for a challenge that is valid.
abbrev pub judge_challenge : Result → List String → Challenge → ChallengeType → Review → Review
judge_challenge prov assign ch wrong_merge v = record v {
  split_targets = insert ch.canonical_id v.split_targets;
}
judge_challenge prov assign ch wrong_split v =
    contest
      (join_contested prov assign (ch.canonical_id ∷ ch.other_canonical_id ∷ [])
        wrong_split_challenge ch.reason (ch.by ∷ []))
      (resolve
        (resolution ch recorded_no_merge (stay_separate ch.canonical_id ch.other_canonical_id)) v)
judge_challenge prov assign ch label_bias v =
    resolve (resolution ch recorded_label_only label_carries_no_count) v
judge_challenge prov assign ch _ v = resolve (resolution ch recorded_no_injection gate_holds) v

-- Whether `joinContested` of the switch reads outside the nominations.
abbrev pub misreads : Result → List String → Challenge → ChallengeType → Bool
misreads prov assign ch wrong_split =
    overruns (contains (ch.canonical_id ∷ ch.other_canonical_id ∷ [])) prov.nominations assign
misreads prov assign ch _ = false

-- The first loop.
unfoldable pub judge_challenges :
    List String → Result → List String → List Challenge → Review → Outcome ConfirmError Review
judge_challenges known prov assign [] v = ok v
judge_challenges known prov assign (ch ∷ chs) v = do
  wrap_err bad_challenge (validate_challenge known ch)
  refuse (misreads prov assign ch ch.type) panics
  judge_challenges known prov assign chs (judge_challenge prov assign ch ch.type v)

abbrev pub resolve_all : Action → Detail → List Challenge → Review → Review
resolve_all action detail [] v = v
resolve_all action detail (ch ∷ chs) v =
    resolve_all action detail chs (resolve (resolution ch action detail) v)

-- Whether `unsplittable[id]`.
abbrev pub cannot_split : SplitDetail → Bool
cannot_split unsplittable = true
cannot_split _ = false

-- One turn of the loop over the targets.
abbrev pub settle_target : Result → List String → List Challenge → String → Review → Review
settle_target prov assign chs id v =
    let detail = split_detail prov (entities assign) id in
    if cannot_split detail
    then contest (separate_contested prov assign id (challenge_reasons chs id) (challengers chs id))
        (resolve_all recorded_no_split_possible (only_identical id) (merge_challenges_for chs id) v)
    else resolve_all action_split (split_parts_of id detail) (merge_challenges_for chs id) v

unfoldable pub settle_targets :
    Result → List String → List Challenge → List String → Review → Review
settle_targets prov assign chs [] v = v
settle_targets prov assign chs (id ∷ ids) v =
    settle_targets prov assign chs ids (settle_target prov assign chs id v)

-- Rule 4; `reason_of` is the text that the code formats.
abbrev pub carry_merges :
    (ContestedMerge → String) → Result → List String → List ContestedMerge → Review → Review
carry_merges reason_of prov assign [] v = v
carry_merges reason_of prov assign (m ∷ ms) v =
    carry_merges reason_of prov assign ms
      (contest (join_contested prov assign m.split_into dual_disagreement (reason_of m) []) v)

-- Whether `joinContested` of rule 4 reads outside the nominations.
abbrev pub merges_misread : Result → List String → List ContestedMerge → Bool
merges_misread prov assign [] = false
merges_misread prov assign (m ∷ ms) =
    overruns (contains m.split_into) prov.nominations assign || merges_misread prov assign ms

abbrev pub confirmed_by : Result → LedgerRow → LedgerRow
confirmed_by prov r = record r {
  decided_by_call = "host:host-confirmation-rule@v1";
  agreed_by = if is_empty prov.canonicalizers then r.agreed_by else prov.canonicalizers;
}

abbrev pub revision_job : Digest → Result → Ledger → Job
revision_job digest prov led = record {
  digest = digest;
  nominations = prov.nominations;
  revision = suc (revision_of led);
  prior = prov.partition_revision_hash;
  stamp = confirmed_by prov;
}

abbrev pub revised_result : Result → Ledger → List Cluster → Result
revised_result prov led clusters = record prov {
  clusters = clusters;
  partition_revision_hash = led.revision_hash;
  ledger = some led;
  agreement_rule_version = host_confirmation_rule_version;
}

abbrev pub no_review : Review
no_review = record { resolutions = []; contested = []; split_targets = [] }

abbrev pub known_ids : Result → List String
known_ids res = map (λ (c : Cluster). c.canonical_id) res.clusters

abbrev pub confirmation_of : Result → Presentation → List Challenge → Review → Result → Confirmation
confirmation_of prov pres chs v revision = record {
  presentation = pres;
  challenges = chs;
  resolutions = v.resolutions;
  revision = revision;
  prior_revision_hash = prov.partition_revision_hash;
  contested = v.contested;
  rule_version = host_confirmation_rule_version;
}

-- `iterate` is the order in which a loop over a Go map meets its keys, which Go leaves open. A result
-- without a ledger makes `Ledger.Revision` read a nil pointer. The loop over the targets reads the
-- nominations of the targets only, as `applySplits` does before it.
unfoldable pub confirm :
    Digest
    → (List String → List String)
    → (ContestedMerge → String)
    → Result
    → Presentation
    → List Challenge
    → Outcome ConfirmError Confirmation
confirm digest iterate reason_of prov pres chs = do
  refuse (is_empty prov.nominations) no_nominations
  assign ← assignment_of prov
  v ← judge_challenges (known_ids prov) prov assign chs no_review
  refuse (overruns (contains v.split_targets) prov.nominations assign) panics
  let next = apply_splits prov assign v.split_targets
  let settled = settle_targets prov assign chs (iterate v.split_targets) v
  old ← or_refuse prov.ledger panics
  refuse (merges_misread prov assign old.contested) panics
  let carried = carry_merges reason_of prov assign old.contested settled
  led ← wrap_err revision_refused (build_ledger (revision_job digest prov old) next)
  clusters ← or_refuse (partition_view prov.nominations next) panics
  ok (confirmation_of prov pres chs carried (revised_result prov led clusters))

-- `Confirmation.Settled`
abbrev pub settled_mappings : Confirmation → Bool
settled_mappings c = is_empty c.contested
