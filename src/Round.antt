-- ===== src/Round.antt =====
-- internal/explore/round/round.go: rounds, the artifacts carried between them and their projection.
pub mod Project
pub mod Carried
pub mod Declared
use aimesh.Base.{ℕ, String, Bool, List, Option, none, some}
use aimesh.Base.Number.{decimal, ◌<>◌}
use aimesh.Base.Int.{ℤ, pos, negsuc}
use aimesh.Base.Outcome.{Outcome, ok, err}
use aimesh.Base.{ltb, eqb, if◌then◌else◌}
use aimesh.Schema.{Envelope}
use Carried.{Artifact}

abbrev pub max_rounds : ℕ
max_rounds = 4

-- `Count`: the declared number of rounds, or the refusal that names it.
unfoldable pub count : ℤ → Outcome ℕ ℕ
count (negsuc n) = ok 1
count (pos n) = if eqb n 0 then ok 1 else if ltb max_rounds n then err n else ok n

pub record Round : Type 0 where
  pub index : ℕ
  pub blind : Bool
  pub id : String
  pub payload_hash : String
  pub envelopes : List Envelope
  pub carried : Option Artifact

unfoldable pub new_round : ℕ → Bool → String → List Envelope → Option Artifact → Round
unfolding decimal ◌<>◌
new_round index blind payload_hash envelopes carried = record {
  index = index;
  blind = blind;
  id = "round-" <> decimal index;
  payload_hash = payload_hash;
  envelopes = envelopes;
  carried = carried;
}
