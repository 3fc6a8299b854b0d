-- ===== src/Canon/Challenge.antt =====
-- confirm.go: the typed challenges of the confirmation round and their validation.
pub mod Valid
use aimesh.Base.{
  String, Bool, true, false, not, List, [], ◌∷◌, ◌==◌, String_comparable, if◌then◌else◌,
}
use aimesh.Base.Outcome.{Outcome, ok, err, ◌>>=◌, ◌>>◌, refuse}
use aimesh.Base.Sets.{contains}
use aimesh.Base.Text.{is_blank}
use aimesh.Schema.{ExplorerIdentity}

-- A type is a text in the program: the five that it knows, or any other.
pub data ChallengeType : Type 0 where
  wrong_merge wrong_split label_bias missing_item injected_item : ChallengeType
  other_challenge : String → ChallengeType

-- `ChallengeType.Valid`
abbrev pub is_valid : ChallengeType → Bool
is_valid (other_challenge s) = false
is_valid _ = true

-- `ChallengeTypes`
abbrev pub challenge_types : List ChallengeType
challenge_types = wrong_merge ∷ wrong_split ∷ label_bias ∷ missing_item ∷ injected_item ∷ []

pub record Challenge : Type 0 where
  pub type : ChallengeType
  pub canonical_id : String
  pub other_canonical_id : String
  pub raw_nomination : String
  pub reason : String
  pub by : ExplorerIdentity

pub data ChallengeError : Type 0 where
  unknown_type : ChallengeType → ChallengeError
  empty_reason no_target no_other : ChallengeError
  unknown_target unknown_other same_entity : String → ChallengeError

abbrev pub needs_target : ChallengeType → Bool
needs_target missing_item = false
needs_target _ = true

abbrev pub needs_other : ChallengeType → Bool
needs_other wrong_split = true
needs_other _ = false

check_target : List String → Challenge → Outcome ChallengeError (Unit {0})
check_target known c = do
  refuse (is_blank c.canonical_id) no_target
  refuse (not (contains known c.canonical_id)) (unknown_target c.canonical_id)

check_other : List String → Challenge → Outcome ChallengeError (Unit {0})
check_other known c = do
  refuse (is_blank c.other_canonical_id) no_other
  refuse (not (contains known c.other_canonical_id)) (unknown_other c.other_canonical_id)
  refuse (c.other_canonical_id == c.canonical_id) (same_entity c.canonical_id)

-- `Challenge.Validate`
unfoldable pub validate_challenge : List String → Challenge → Outcome ChallengeError (Unit {0})
unfolding check_target check_other
validate_challenge known c = do
  refuse (not (is_valid c.type)) (unknown_type c.type)
  refuse (is_blank c.reason) empty_reason
  if needs_target c.type then check_target known c else ok tt
  if needs_other c.type then check_other known c else ok tt
