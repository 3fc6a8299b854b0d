-- ===== src/Govern/Ballot/Valid.antt =====
-- Which ballots are accepted.
use aimesh.Base.{
  ◌≡◌, ◌↔◌, refl, String, true, false, ◌&&◌, List, [], ◌∷◌, is_empty, String_comparable, arith, All,
}
use aimesh.Base.Outcome.{IsOk}
use aimesh.Base.Sets.{contains, IsUnique}
use aimesh.Govern.Ballot.{Ballot, check_ranking, check_approved, validate_ballot}

abbrev pub AllIn : List String → List String → Type 0
AllIn universe ids = All (λ id. contains universe id ≡ true) ids

-- No id of a list is among those seen before.
abbrev IsFresh : List String → List String → Type 0
IsFresh seen ids = All (λ id. contains seen id ≡ false) ids

IsFresh-cons :
    (id : String) (seen ids : List String)
    → IsFresh (id ∷ seen) ids ↔ ((contains ids id ≡ false) × IsFresh seen ids)
IsFresh-cons id seen [] = ground arith
IsFresh-cons id seen (x ∷ ids) = ground (
  arith,
  IsFresh-cons id seen ids,
  String_comparable.same_iff id x,
  String_comparable.same_iff x id,
)

check_ranking_iff :
    (universe seen ids : List String)
    → IsOk (check_ranking universe seen ids)
      ↔ (AllIn universe ids × IsFresh seen ids × IsUnique ids)
unfolding check_ranking
check_ranking_iff universe seen [] = ground arith
check_ranking_iff universe seen (id ∷ ids) =
    ground (arith, check_ranking_iff universe (id ∷ seen) ids, IsFresh-cons id seen ids)

check_approved_iff :
    (universe ids : List String) → IsOk (check_approved universe ids) ↔ AllIn universe ids
unfolding check_approved
check_approved_iff universe [] = ground arith
check_approved_iff universe (id ∷ ids) = ground (arith, check_approved_iff universe ids)

IsFresh-nil : (ids : List String) → IsFresh [] ids
IsFresh-nil [] = tt
IsFresh-nil (x ∷ ids) = (refl, IsFresh-nil ids)

-- A ballot is accepted exactly if it ranks and approves only options of the universe, ranks none
-- twice, and ranks or approves at least one.
pub validate_ballot_iff :
    (universe : List String) (b : Ballot)
    → IsOk (validate_ballot universe b) ↔ (
        AllIn universe b.ranking
        × IsUnique b.ranking
        × AllIn universe b.approved
        × ((is_empty b.ranking && is_empty b.approved) ≡ false))
unfolding validate_ballot
validate_ballot_iff universe b = ground (
  arith,
  check_ranking_iff universe [] b.ranking,
  check_approved_iff universe b.approved,
  IsFresh-nil b.ranking,
)
