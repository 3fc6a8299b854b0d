-- ===== src/Canon/Presented.antt =====
-- confirm.go: `Present`, the order in which the entities are shown.
use aimesh.Base.{String, Bool, List, map, ◌==◌, String_comparable, if◌then◌else◌}
use aimesh.Base.Number.{◌<>◌}
use aimesh.Base.Order.{sort_by}
use aimesh.Base.Text.{text_lt}
use aimesh.Schema.{ExplorerIdentity_comparable}
use aimesh.Canon.View.{Cluster, Result}

abbrev pub host_confirmation_rule_version : String
host_confirmation_rule_version = "host-confirmation-rule@v1"

pub record Presentation : Type 0 where
  pub order : List String
  pub seed : String
  pub rule_version : String

-- `keyed`
pub record Keyed : Type 0 where
  pub id : String
  pub key : String

abbrev pub shown_before : Keyed → Keyed → Bool
shown_before a b = if a.key == b.key then text_lt a.id b.id else text_lt a.key b.key

-- `Present`; `sha` is the hex SHA-256 of a text.
unfoldable pub present : (String → String) → Result → String → Presentation
unfolding ◌<>◌
present sha res seed_input = record {
  order =
      map (λ (k : Keyed). k.id)
        (sort_by shown_before (
          map
            (λ (c : Cluster). record {
              id = c.canonical_id;
              key = sha (seed_input <> ("\0" <> c.canonical_id));
            })
            res.clusters));
  seed = sha seed_input;
  rule_version = host_confirmation_rule_version;
}
