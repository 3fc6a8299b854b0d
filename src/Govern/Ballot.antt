-- ===== src/Govern/Ballot.antt =====
-- decision.go: a recorded ballot and its validation against the confirmed universe.
pub mod Valid
use aimesh.Base.{
  ℕ, String, Bool, true, false, not, ◌&&◌, List, [], ◌∷◌, is_empty, String_comparable,
  if◌then◌else◌,
}
use aimesh.Base.Outcome.{Outcome, ok, err, ◌>>=◌, ◌>>◌, refuse}
use aimesh.Base.Sets.{contains}
use aimesh.Schema.{ExplorerIdentity}

pub record Ballot : Type 0 where
  pub by : ExplorerIdentity
  pub envelope_ref : String
  pub ranking : List String
  pub approved : List String
  pub rationale : String

pub data BallotError : Type 0 where
  ranks_unknown approves_unknown ranks_twice : String → BallotError
  no_preference : BallotError

-- The loop over the ranking; `seen` holds the ids before.
unfoldable pub check_ranking :
    List String → List String → List String → Outcome BallotError (Unit {0})
check_ranking universe seen [] = ok tt
check_ranking universe seen (id ∷ ids) = do
  refuse (not (contains universe id)) (ranks_unknown id)
  refuse (contains seen id) (ranks_twice id)
  check_ranking universe (id ∷ seen) ids

unfoldable pub check_approved : List String → List String → Outcome BallotError (Unit {0})
check_approved universe [] = ok tt
check_approved universe (id ∷ ids) = do
  refuse (not (contains universe id)) (approves_unknown id)
  check_approved universe ids

-- `Ballot.Validate`
unfoldable pub validate_ballot : List String → Ballot → Outcome BallotError (Unit {0})
unfolding check_ranking check_approved
validate_ballot universe b = do
  check_ranking universe [] b.ranking
  check_approved universe b.approved
  refuse (is_empty b.ranking && is_empty b.approved) no_preference
