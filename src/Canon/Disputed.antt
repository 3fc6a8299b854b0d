-- ===== src/Canon/Disputed.antt =====
-- confirm.go: the contested mappings that `Confirm` builds, and the challenges that they cite.
use aimesh.Base.{
  String, Bool, true, false, ◌&&◌, List, [], ◌∷◌, map, keep, ◌==◌, String_comparable, if◌then◌else◌,
}
use aimesh.Base.Number.{◌<>◌}
use aimesh.Base.Sets.{contains, insert}
use aimesh.Schema.{ExplorerIdentity, ExplorerIdentity_comparable}
use aimesh.Canon.Ledger.{Nomination}
use aimesh.Canon.View.{Result}
use aimesh.Canon.Contested.{
  ContestedSource, unsplittable_merge, alternative_joins, alternative_separates, Contribution,
  AlternativeEntity, ContestedMapping,
}
use aimesh.Canon.Challenge.{ChallengeType, wrong_merge, Challenge}
use aimesh.Canon.Presented.{host_confirmation_rule_version}

-- `strings.Join`
unfoldable pub join_texts : String → List String → String
unfolding ◌<>◌
join_texts sep [] = ""
join_texts sep (s ∷ []) = s
join_texts sep (s ∷ t ∷ ts) = s <> (sep <> join_texts sep (t ∷ ts))

-- The nominations whose held id passes a test, in order; for an id beyond them see `overruns`.
abbrev pub with_held : (String → Bool) → List Nomination → List String → List Nomination
with_held p [] ids = []
with_held p (n ∷ ns) [] = []
with_held p (n ∷ ns) (id ∷ ids) = let rest = with_held p ns ids in if p id then n ∷ rest else rest

abbrev pub contribution : Nomination → Contribution
contribution n = record { source_explorer = n.source_explorer; envelope_ref = n.envelope_ref }

abbrev pub alternative : String → List Nomination → AlternativeEntity
alternative label ns = record {
  label = label;
  raw_nominations = map (λ n. n.raw) ns;
  contributions = map contribution ns;
}

abbrev pub join_contested :
    Result
    → List String
    → List String
    → ContestedSource
    → String
    → List ExplorerIdentity
    → ContestedMapping
join_contested prov assign held_ids src reason raised_by = record {
  held_canonical_ids = held_ids;
  alternative_entities =
      alternative (join_texts "+" held_ids) (with_held (contains held_ids) prov.nominations assign)
      ∷ [];
  direction = alternative_joins;
  source = src;
  reason = reason;
  raised_by = raised_by;
  rule_version = host_confirmation_rule_version;
}

-- `if !seen[x] { seen[x] = true; out = append(out, x) }`
abbrev pub first_seen : List ExplorerIdentity → List ExplorerIdentity → List ExplorerIdentity
first_seen seen [] = []
first_seen seen (x ∷ xs) =
    let rest = first_seen (insert x seen) xs in if contains seen x then rest else x ∷ rest

-- The entity of one source in `separateContested`.
unfoldable pub alternative_by : String → List Nomination → ExplorerIdentity → AlternativeEntity
unfolding ◌<>◌
alternative_by held_id ns s =
    alternative (held_id <> (" @ " <> s.model)) (keep (λ n. n.source_explorer == s) ns)

abbrev pub separate_contested :
    Result → List String → String → String → List ExplorerIdentity → ContestedMapping
separate_contested prov assign held_id reason raised_by =
    let ns = with_held (λ id. id == held_id) prov.nominations assign in
    record {
      held_canonical_ids = held_id ∷ [];
      alternative_entities =
          map (alternative_by held_id ns) (first_seen [] (map (λ n. n.source_explorer) ns));
      direction = alternative_separates;
      source = unsplittable_merge;
      reason = reason;
      raised_by = raised_by;
      rule_version = host_confirmation_rule_version;
    }

-- `challengesFor` with `ChallengeWrongMerge`, the only type that `Confirm` asks for.
abbrev pub is_wrong_merge : ChallengeType → Bool
is_wrong_merge wrong_merge = true
is_wrong_merge _ = false

abbrev pub merge_challenges_for : List Challenge → String → List Challenge
merge_challenges_for chs id =
    keep (λ (c : Challenge). is_wrong_merge c.type && c.canonical_id == id) chs

abbrev pub challenge_reasons : List Challenge → String → String
challenge_reasons chs id =
    join_texts " | " (map (λ (c : Challenge). c.reason) (merge_challenges_for chs id))

abbrev pub challengers : List Challenge → String → List ExplorerIdentity
challengers chs id = first_seen [] (map (λ (c : Challenge). c.by) (merge_challenges_for chs id))
