-- ===== src/Canon/Contested.antt =====
-- The records of internal/explore/canon/confirm.go that the counts read: contested mappings.
use aimesh.Base.{String, Bool, List}
use aimesh.Base.{String_comparable}
use aimesh.Base.Sets.{contains}
use aimesh.Schema.{ExplorerIdentity}

pub data ContestedDirection : Type 0 where
  alternative_joins alternative_separates : ContestedDirection

pub data ContestedSource : Type 0 where
  dual_disagreement wrong_split_challenge unsplittable_merge : ContestedSource

pub record Contribution : Type 0 where
  pub source_explorer : ExplorerIdentity
  pub envelope_ref : String

pub record AlternativeEntity : Type 0 where
  pub label : String
  pub raw_nominations : List String
  pub contributions : List Contribution

pub record ContestedMapping : Type 0 where
  pub held_canonical_ids : List String
  pub alternative_entities : List AlternativeEntity
  pub direction : ContestedDirection
  pub source : ContestedSource
  pub reason : String
  pub raised_by : List ExplorerIdentity
  pub rule_version : String

abbrev pub affects : ContestedMapping → String → Bool
affects m id = contains m.held_canonical_ids id

-- `string(m.Direction)`
abbrev pub direction_text : ContestedDirection → String
direction_text alternative_joins = "alternative_joins"
direction_text alternative_separates = "alternative_separates"
