-- ===== src/Govern/Corroborate.antt =====
-- govern.go: the corroboration claim over one canonical entity, and its sensitivity to a contested
-- partition.
pub mod Counts
pub mod Looped
pub mod Ranges
use aimesh.Base.{
  ℕ, ◌≤◌, String, Bool, true, false, List, [], ◌∷◌, ◌++◌, map, Option, none, some, is_empty, keep,
  ltb, leb, eqb, ◌==◌, String_comparable, if◌then◌else◌,
}
use aimesh.Base.Number.{◌<>◌}
use aimesh.Base.Order.{sort_texts}
use aimesh.Base.Outcome.{Outcome, ok, err, ◌>>=◌, ◌>>◌, refuse, or_refuse}
use aimesh.Base.Sets.{contains, key_set, distinct_count}
use aimesh.Schema.{ExplorerIdentity, ExplorerIdentity_comparable}
use aimesh.Canon.Contested.{
  ContestedDirection, ContestedMapping, AlternativeEntity, Contribution, alternative_joins,
  alternative_separates, affects, direction_text,
}
use aimesh.Canon.View.{Member, Cluster, Result}
use aimesh.Govern.Policy.{Panel, Denominator, denominators, quorum_met, rules_version}
use aimesh.Govern.Baseline.{BlindBaseline, contains_ref, size}
use aimesh.Govern.Claim.{
  Claim, Sensitivity, Label, corroborated, single_source, withheld_contested, withheld_below_quorum,
}

abbrev pub corroboration_query : String
corroboration_query = "corroboration-over-blind-round-1@v1"

pub record CountInput : Type 0 where
  pub baseline : BlindBaseline
  pub partition : Result
  pub contested : List ContestedMapping
  pub canonical_id : String
  pub panel : Panel
  pub formulation_hash : String

pub data CountError : Type 0 where
  no_baseline : CountError
  not_in_partition : String → String → CountError

-- The first cluster with the id.
unfoldable pub find_cluster : String → List Cluster → Option Cluster
find_cluster id [] = none
find_cluster id (c ∷ cs) = if c.canonical_id == id then some c else find_cluster id cs

-- The members whose nominations are in the baseline.
abbrev pub blind_members : BlindBaseline → List Member → List Member
blind_members b = keep λ m. contains_ref b m.envelope_ref

abbrev pub member_sources : List Member → List ExplorerIdentity
member_sources = map λ m. m.source_explorer

abbrev pub member_refs : List Member → List String
member_refs = map λ m. m.envelope_ref

abbrev pub blind_contributions : BlindBaseline → List Contribution → List Contribution
blind_contributions b = keep λ c. contains_ref b c.envelope_ref

abbrev pub contribution_sources : List Contribution → List ExplorerIdentity
contribution_sources = map λ c. c.source_explorer

unfoldable pub count_baseline_sources : BlindBaseline → AlternativeEntity → ℕ
count_baseline_sources b ae =
    distinct_count (contribution_sources (blind_contributions b ae.contributions))

-- `dedupe`, in order of first appearance; `seen` holds what came before.
unfoldable pub dedupe_from : List String → List String → List String
dedupe_from seen [] = []
dedupe_from seen (v ∷ s) = elim (contains seen v) [
  | true ↦ dedupe_from seen s
  | false ↦ v ∷ dedupe_from (v ∷ seen) s
]

unfoldable pub dedupe : List String → List String
unfolding dedupe_from
dedupe s = dedupe_from [] s

-- `strings.Join(notes, " | ")`
unfoldable pub join_notes : List String → String
unfolding ◌<>◌
join_notes [] = ""
join_notes (n ∷ []) = n
join_notes (n ∷ m ∷ ns) = n <> (" | " <> join_notes (m ∷ ns))

-- The variables of the loop in `sensitivity`.
pub record Ranging : Type 0 where
  pub ids : List String
  pub alt : ℕ
  pub direction : String
  pub notes : List String

-- One alternative entity of a mapping moves the bound in the mapping's direction only.
unfoldable pub alternative_step : ContestedDirection → ℕ → ℕ → ℕ
alternative_step alternative_joins c alt = if ltb alt c then c else alt
alternative_step alternative_separates c alt = if ltb c alt then c else alt

unfoldable pub alternative_bound : BlindBaseline → ContestedMapping → List AlternativeEntity → ℕ → ℕ
unfolding alternative_step
alternative_bound b m [] alt = alt
alternative_bound b m (ae ∷ aes) alt =
    alternative_bound b m aes (alternative_step m.direction (count_baseline_sources b ae) alt)

abbrev pub widened : BlindBaseline → ContestedMapping → Ranging → Ranging
widened b m r = record {
  ids = r.ids ++ m.held_canonical_ids;
  alt = alternative_bound b m m.alternative_entities r.alt;
  direction = direction_text m.direction;
  notes = r.notes ++ (m.reason ∷ []);
}

unfoldable pub range_over : BlindBaseline → String → List ContestedMapping → Ranging → Ranging
range_over b id [] r = r
range_over b id (m ∷ ms) r = range_over b id ms (if affects m id then widened b m r else r)

abbrev pub range_note : String
range_note =
    "the entity resolution behind this count is contested; computed over both plausible partitions: "

-- The range between the held count and what the loop left.
unfoldable pub range_of : ℕ → Ranging → Option Sensitivity
unfolding dedupe join_notes ◌<>◌
range_of held r =
    if is_empty r.ids
    then none
    else some (record {
      low = if ltb r.alt held then r.alt else held;
      high = if ltb r.alt held then held else r.alt;
      held_value = held;
      alternative_value = r.alt;
      direction = r.direction;
      contested_canonical_ids = dedupe r.ids;
      note = range_note <> join_notes r.notes;
    })

abbrev pub no_range : ℕ → Ranging
no_range held = record { ids = []; alt = held; direction = ""; notes = [] }

unfoldable pub sensitivity : CountInput → ℕ → Option Sensitivity
sensitivity i held =
    range_of held (range_over i.baseline i.canonical_id i.contested (no_range held))

unfoldable pub label_of : ℕ → Option Sensitivity → Panel → Label
label_of k (some s) p = withheld_contested
label_of k none p =
    if quorum_met p
    then (if leb 2 k then corroborated else single_source)
    else withheld_below_quorum

-- The claim over the cluster that was found.
pub corroborate : CountInput → Cluster → Claim
corroborate i cluster =
    let counted = blind_members i.baseline cluster.members in
    let k = distinct_count (member_sources counted) in
    let (of_panel, of_respondents) = denominators i.panel k in
    let range = sensitivity i k in
    record {
      query = corroboration_query;
      subject = i.canonical_id;
      subject_label = cluster.name;
      value = k;
      k_of_panel = of_panel;
      k_of_respondents = of_respondents;
      formulation_hash = i.formulation_hash;
      partition_revision_hash = i.partition.partition_revision_hash;
      rules_version = rules_version;
      policy_hash = i.panel.policy_hash;
      baseline_round_id = i.baseline.round_id;
      contributing_source_ids = sort_texts (key_set (member_refs counted));
      label = label_of k range i.panel;
      sensitivity = range;
    }

unfoldable pub corroboration : CountInput → Outcome CountError Claim
unfolding corroborate find_cluster
corroboration i = do
  refuse (eqb (size i.baseline) 0) no_baseline
  cluster ←
      or_refuse (find_cluster i.canonical_id i.partition.clusters)
        (not_in_partition i.canonical_id i.partition.partition_revision_hash)
  ok (corroborate i cluster)
