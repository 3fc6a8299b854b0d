-- ===== src/Canon/Parsed.antt =====
-- confirm.go: `ParseChallenges` from the decoded answer on; the decoding of its JSON is not modelled.
pub mod Judged
use aimesh.Base.{String, List, [], ◌∷◌, ◌==◌, String_comparable, if◌then◌else◌}
use aimesh.Base.Outcome.{Outcome, ok, ◌>>=◌, ◌>>◌}
use aimesh.Base.Text.{trim_space}
use aimesh.Schema.{ExplorerIdentity}
use aimesh.Canon.Challenge.{
  ChallengeType, wrong_merge, wrong_split, label_bias, missing_item, injected_item, other_challenge,
  Challenge, ChallengeError, validate_challenge,
}

-- One entry of `challengeWire`.
pub record ChallengeWire : Type 0 where
  pub type : String
  pub canonical_id : String
  pub other_canonical_id : String
  pub raw_nomination : String
  pub reason : String

-- `ChallengeType(s)`
unfoldable pub challenge_type : String → ChallengeType
challenge_type s =
    if s == "wrong_merge"
    then wrong_merge
    else if s == "wrong_split"
    then wrong_split
    else if s == "label_bias"
    then label_bias
    else if s == "missing_item"
    then missing_item
    else if s == "injected_item"
    then injected_item
    else other_challenge s

unfoldable pub challenge_of : ExplorerIdentity → ChallengeWire → Challenge
unfolding challenge_type trim_space
challenge_of by w = record {
  type = challenge_type (trim_space w.type);
  canonical_id = trim_space w.canonical_id;
  other_canonical_id = trim_space w.other_canonical_id;
  raw_nomination = w.raw_nomination;
  reason = w.reason;
  by = by;
}

unfoldable pub parse_challenges :
    List String → ExplorerIdentity → List ChallengeWire → Outcome ChallengeError (List Challenge)
unfolding challenge_of validate_challenge
parse_challenges known by [] = ok []
parse_challenges known by (w ∷ ws) = do
  validate_challenge known (challenge_of by w)
  rest ← parse_challenges known by ws
  ok (challenge_of by w ∷ rest)
