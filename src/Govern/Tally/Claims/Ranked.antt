-- ===== src/Govern/Tally/Claims/Ranked.antt =====
-- When a candidate is ranked, and the range of a contested one.
use aimesh.Base.{ℕ, ◌≡◌, ◌↔◌, refl, String, Bool, true, false, List, [], ◌∷◌, none, arith, All}
use aimesh.Canon.Contested.{ContestedMapping, affects}
use aimesh.Govern.Claim.{ranked}
use aimesh.Govern.Corroborate.{Ranging}
use aimesh.Govern.Ballot.{Ballot}
use aimesh.Govern.Tally.Claims.{
  TallyInput, Candidate, ballot_range_over, ballot_widened, ballot_range_of, unranged,
  ballot_sensitivity, ballot_claim,
}

affected-stays :
    (bs : List Ballot) (id : String) (ms : List ContestedMapping) (r : Ranging)
    → (ballot_range_over bs id ms r true).1 ≡ true
unfolding ballot_range_over
affected-stays bs id [] r = refl
affected-stays bs id (m ∷ ms) r =
    ground (arith, affected-stays bs id ms r, affected-stays bs id ms (ballot_widened bs m r))

affected_iff :
    (bs : List Ballot) (id : String) (ms : List ContestedMapping) (r : Ranging)
    → ((ballot_range_over bs id ms r false).1 ≡ false) ↔ All (λ m. affects m id ≡ false) ms
unfolding ballot_range_over
affected_iff bs id [] r = ground arith
affected_iff bs id (m ∷ ms) r =
    ground (arith, affected_iff bs id ms r, affected-stays bs id ms (ballot_widened bs m r))

ballot_range_of-none_iff :
    (held : ℕ) (x : Ranging × Bool) → (ballot_range_of held x ≡ none) ↔ (x.1 ≡ false)
unfolding ballot_range_of
ballot_range_of-none_iff held (r, true) = ground arith
ballot_range_of-none_iff held (r, false) = ground arith

module _ (i : TallyInput) (e : Candidate) where
  abbrev looped : Ranging × Bool
  looped = ballot_range_over i.ballots e.canonical_id i.contested (unranged e) false

  ballot_sensitivity-none_iff :
      (ballot_sensitivity i e ≡ none) ↔ All (λ m. affects m e.canonical_id ≡ false) i.contested
  unfolding ballot_sensitivity
  ballot_sensitivity-none_iff =
      let all = affected_iff i.ballots e.canonical_id i.contested (unranged e) in
      let free = ballot_range_of-none_iff e.support looped in
      (λ h. all.0 (free.0 h), λ h. free.1 (all.1 h))

  -- A shortlisted candidate is `ranked` exactly if no contested mapping affects it, the quorum is met
  -- and no tie straddles the cut at its rank.
  pub ballot_claim-ranked_iff :
      (tied_at_boundary quorum_met : Bool)
      → ((ballot_claim i e tied_at_boundary quorum_met).label ≡ ranked) ↔ (
          All (λ m. affects m e.canonical_id ≡ false) i.contested
          × (quorum_met ≡ true)
          × (tied_at_boundary ≡ false))
  unfolding ballot_claim
  ballot_claim-ranked_iff t q = ground (arith, ballot_sensitivity-none_iff)
