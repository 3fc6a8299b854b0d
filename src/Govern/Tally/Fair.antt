-- ===== src/Govern/Tally/Fair.antt =====
-- The shortlist of a decision against the standing of its entries.
use mathlib.Core.Path.{subst}
use aimesh.Base.{
  ℕ, zero, suc, ◌≤◌, ◌≡◌, sym, String, Bool, true, false, List, [], ◌∷◌, map, some, get_elem?, All,
  Bool-cases, inl, inr, leb, arith,
}
use aimesh.Base.Outcome.{ok}
use aimesh.Govern.Decision.{DecisionInputs}
use aimesh.Govern.Tally.{
  DecisionEntry, mark_shortlisted, conclude, ranked_entries, decide, tally, Decision,
}
use aimesh.Govern.Tally.Claims.{TallyInput}
use aimesh.Govern.Tally.Standing.{tally-Tallied}
use aimesh.Govern.Tally.Ahead.{outranks, ahead_of, IsRankedIn}
use aimesh.Govern.Tally.Ranks.{tally-IsRankedIn}

-- Whoever outranks `a` outranks whom `a` does not fall behind.
ahead_of_mono :
    (a b : DecisionEntry) (xs : List DecisionEntry)
    → outranks b a ≡ false
    → ahead_of a xs ≤ ahead_of b xs
ahead_of_mono a b [] h = omega arith
ahead_of_mono a b (x ∷ xs) h = ground (arith, h, ahead_of_mono a b xs h)

All-get_elem? :
    (P : DecisionEntry → Type 0) (xs : List DecisionEntry) (k : ℕ) (x : DecisionEntry)
    → All P xs
    → get_elem? xs k ≡ some x
    → P x
All-get_elem? P [] k x h f = cc
All-get_elem? P (y ∷ xs) zero x h f = let same : y ≡ x = cc in subst P same h.0
All-get_elem? P (y ∷ xs) (suc k) x h f = All-get_elem? P xs k x h.1 f

-- An entry is shortlisted by its rank alone.
IsCutAt : ℕ → DecisionEntry → Type 0
IsCutAt r e = e.shortlisted ≡ leb e.rank r

conclude-IsCutAt :
    (i : TallyInput) (r : ℕ) (over quorum : Bool) (es : List DecisionEntry)
    → All (IsCutAt r) (map (conclude i r over quorum) (map (mark_shortlisted r) es))
unfolding conclude IsCutAt
conclude-IsCutAt i r over quorum [] = tt
conclude-IsCutAt i r over quorum (e ∷ es) = elim (Bool-cases (leb e.rank r)) [
  | inl h ↦ rw h (sym h, conclude-IsCutAt i r over quorum es)
  | inr h ↦ rw h (sym h, conclude-IsCutAt i r over quorum es)
]

tally-IsCutAt :
    (digest : DecisionInputs → String) (i : TallyInput) (d : Decision)
    → tally digest i ≡ ok d
    → (r : ℕ) × All (IsCutAt r) d.entries
unfolding decide
tally-IsCutAt digest i d e =
    let (t, r, (_, _, made)) = tally-Tallied digest i d e in
    (
      r,
      subst (λ (x : Decision). All (IsCutAt r) x.entries) (sym made)
          (conclude-IsCutAt i r _ _ (ranked_entries i t)),
    )

-- Every entry that a shortlisted one does not outrank, by points, ballots and approvals, is shortlisted
-- too and ranks no later: no order of ids decides at the cut.
pub tally_fair :
    (digest : DecisionInputs → String) (i : TallyInput) (d : Decision) (j k : ℕ)
    (a b : DecisionEntry)
    → tally digest i ≡ ok d
    → get_elem? d.entries j ≡ some a
    → get_elem? d.entries k ≡ some b
    → b.shortlisted ≡ true
    → outranks b a ≡ false
    → (a.shortlisted ≡ true) × (a.rank ≤ b.rank)
unfolding IsCutAt
tally_fair digest i d j k a b e at_j at_k inside behind =
    let ranks = tally-IsRankedIn digest i d e in
    let (r, cut) = tally-IsCutAt digest i d e in
    let rank_a = All-get_elem? (IsRankedIn d.entries) d.entries j a ranks at_j in
    let rank_b = All-get_elem? (IsRankedIn d.entries) d.entries k b ranks at_k in
    let cut_a = All-get_elem? (IsCutAt r) d.entries j a cut at_j in
    let cut_b = All-get_elem? (IsCutAt r) d.entries k b cut at_k in
    let order : a.rank ≤ b.rank =
      omega (arith, rank_a, rank_b, ahead_of_mono a b d.entries behind) in
    (ground (arith, cut_a, cut_b, inside, order), order)
