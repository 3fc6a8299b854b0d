-- ===== src/Govern/Tally/Labels.antt =====
-- The labels of the claims over the shortlisted candidates of a decision.
use mathlib.Core.Path.{subst}
use aimesh.Base.{
  ℕ, zero, suc, ◌-◌, ◌≤◌, ◌<◌, ◌≡◌, ◌↔◌, refl, sym, ap, ◌∙◌, String, Bool, true, false, ◌&&◌, List,
  [], ◌∷◌, map, some, Option-cases, length, get_elem?, All, Bool-cases, inl, inr, ltb, leb, eqb,
  min, arith,
}
use aimesh.Base.Outcome.{ok}
use aimesh.Canon.Contested.{affects}
use aimesh.Govern.Policy.{quorum_met}
use aimesh.Govern.Claim.{Claim, ranked}
use aimesh.Govern.Decision.{DecisionInputs}
use aimesh.Govern.Tally.{
  DecisionEntry, rank_at, mark_shortlisted, shortlisted, straddles, candidate_of, conclude,
  enough_ballots, ranked_entries, decide, tally, Decision,
}
use aimesh.Govern.Tally.Claims.{TallyInput, ballot_claim}
use aimesh.Govern.Tally.Claims.Ranked.{ballot_claim-ranked_iff}
use aimesh.Govern.Tally.Standing.{tally-Tallied}

-- No entry of a list has a rank after `n`.
abbrev pub all_up_to : ℕ → List DecisionEntry → Bool
all_up_to n [] = true
all_up_to n (e ∷ es) = leb e.rank n && all_up_to n es

-- More entries are shortlisted than the shortlist was frozen for, and none of them ranks after `e`.
abbrev pub tied_at_cut : TallyInput → List DecisionEntry → DecisionEntry → Bool
tied_at_cut i all e =
    ltb i.frozen.inputs.shortlist_size (length (shortlisted all))
    && all_up_to e.rank (shortlisted all)

-- The claim of a shortlisted entry counts its support, and is `ranked` under these four conditions.
abbrev pub IsLabelled : TallyInput → List DecisionEntry → DecisionEntry → Type 0
IsLabelled i all e =
    (c : Claim) × (e.claim ≡ some c)
    × (c.subject ≡ e.canonical_id)
    × (c.value ≡ e.support)
    × ((c.label ≡ ranked) ↔ (
        All (λ m. affects m e.canonical_id ≡ false) i.contested
        × (quorum_met i.panel ≡ true)
        × (i.frozen.inputs.quorum ≤ length i.ballots)
        × (tied_at_cut i all e ≡ false)))

length-shortlisted-conclude :
    (i : TallyInput) (r : ℕ) (over quorum : Bool) (es : List DecisionEntry)
    → length (shortlisted (map (conclude i r over quorum) es)) ≡ length (shortlisted es)
unfolding conclude
length-shortlisted-conclude i r over quorum [] = refl
length-shortlisted-conclude i r over quorum (e ∷ es) =
    ground (arith, length-shortlisted-conclude i r over quorum es)

all_up_to-conclude :
    (i : TallyInput) (r : ℕ) (over quorum : Bool) (n : ℕ) (es : List DecisionEntry)
    → all_up_to n (shortlisted (map (conclude i r over quorum) es)) ≡ all_up_to n (shortlisted es)
unfolding conclude
all_up_to-conclude i r over quorum n [] = refl
all_up_to-conclude i r over quorum n (e ∷ es) =
    ground (arith, all_up_to-conclude i r over quorum n es)

all_up_to-mark :
    (r : ℕ) (es : List DecisionEntry)
    → all_up_to r (shortlisted (map (mark_shortlisted r) es)) ≡ true
all_up_to-mark r [] = refl
all_up_to-mark r (e ∷ es) = ground (arith, all_up_to-mark r es)

-- An entry at the rank of the cut is shortlisted, so no lower rank reaches all that are.
not_all_up_to :
    (r n : ℕ) (es : List DecisionEntry) (k : ℕ) (e : DecisionEntry)
    → get_elem? es k ≡ some e
    → e.rank ≡ r
    → n < r
    → all_up_to n (shortlisted (map (mark_shortlisted r) es)) ≡ false
not_all_up_to r n [] k e f h lt = cc
not_all_up_to r n (x ∷ es) zero e f h lt = let here : x.rank ≡ r = cc in ground (arith, here, lt)
not_all_up_to r n (x ∷ es) (suc k) e f h lt = ground (arith, not_all_up_to r n es k e f h lt)

rank_at-get_elem? :
    (cut : ℕ) (es : List DecisionEntry) (r : ℕ)
    → rank_at cut es ≡ some r
    → (k : ℕ) × (e : DecisionEntry) × (get_elem? es k ≡ some e) × (e.rank ≡ r)
rank_at-get_elem? cut es r f =
    let k = min cut (length es) - 1 in
    elim (Option-cases (get_elem? es k)) [
      | inl n ↦ absurd (ground (arith, n, f))
      | inr (e, found) ↦ (k, e, found, ground (arith, found, f))
    ]

-- The rank of the cut is the last rank that is shortlisted.
last_rank :
    (cut : ℕ) (es : List DecisionEntry) (r n : ℕ)
    → rank_at cut es ≡ some r
    → n ≤ r
    → all_up_to n (shortlisted (map (mark_shortlisted r) es)) ≡ eqb n r
last_rank cut es r n f h =
    let (k, e, found, rank) = rank_at-get_elem? cut es r f in
    elim (Bool-cases (eqb n r)) [
      | inl same ↦
          let up : n ≡ r = ground (arith, same) in
          subst (λ m. all_up_to m (shortlisted (map (mark_shortlisted r) es)) ≡ eqb n r) (sym up)
            (all_up_to-mark r es ∙ sym same)
      | inr less ↦ not_all_up_to r n es k e found rank (ground (arith, less, h)) ∙ sym less
    ]

module _ (i : TallyInput) (r : ℕ) (over : Bool) (all : List DecisionEntry)
    (straddled : ltb i.frozen.inputs.shortlist_size (length (shortlisted all)) ≡ over)
    (last : (n : ℕ) → n ≤ r → all_up_to n (shortlisted all) ≡ eqb n r) where
  abbrev concluded : DecisionEntry → DecisionEntry
  concluded e = conclude i r over (enough_ballots i) (mark_shortlisted r e)

  abbrev claim_over : DecisionEntry → Claim
  claim_over e = ballot_claim i (candidate_of e) (over && eqb e.rank r) (enough_ballots i)

  abbrev claimed : DecisionEntry → DecisionEntry
  claimed e = record e { shortlisted = true; claim = some (claim_over e) }

  concluded-claimed : (e : DecisionEntry) → leb e.rank r ≡ true → concluded e ≡ claimed e
  unfolding conclude
  concluded-claimed e h = rw h refl

  concluded-rejected :
      (e : DecisionEntry) → leb e.rank r ≡ false → (concluded e).shortlisted ≡ false
  unfolding conclude
  concluded-rejected e h = rw h refl

  claimed-IsLabelled : (e : DecisionEntry) → leb e.rank r ≡ true → IsLabelled i all (claimed e)
  claimed-IsLabelled e h =
      let iff =
        ballot_claim-ranked_iff i (candidate_of e) (over && eqb e.rank r) (enough_ballots i) in
      (
        claim_over e,
        refl,
        (unfold ballot_claim in refl),
        (unfold ballot_claim in refl),
        ground (arith, iff, straddled, last e.rank (ground (arith, h))),
      )

  all-IsLabelled :
      (es : List DecisionEntry)
      → All
          (IsLabelled i all)
          (shortlisted (map (conclude i r over (enough_ballots i)) (map (mark_shortlisted r) es)))
  all-IsLabelled [] = tt
  all-IsLabelled (e ∷ es) = elim (Bool-cases (leb e.rank r)) [
    | inl h ↦ rw (concluded-claimed e h) (claimed-IsLabelled e h, all-IsLabelled es)
    | inr h ↦ rw (concluded-rejected e h) (all-IsLabelled es)
  ]

-- Each shortlisted candidate of a decision has a claim that counts its support, and the claim is
-- `ranked` exactly if no contested mapping affects the candidate, the panel's quorum is met, there are
-- as many ballots as the frozen quorum asks for, and it is not at the last rank of a shortlist that a
-- tie made longer than it was frozen for.
pub tally-IsLabelled :
    (digest : DecisionInputs → String) (i : TallyInput) (d : Decision)
    → tally digest i ≡ ok d
    → All (IsLabelled i d.entries) (shortlisted d.entries)
unfolding decide
tally-IsLabelled digest i d e =
    let (t, r, (_, found, made)) = tally-Tallied digest i d e in
    let size = i.frozen.inputs.shortlist_size in
    let es = ranked_entries i t in
    let cut = map (mark_shortlisted r) es in
    let all = map (conclude i r (straddles size cut) (enough_ballots i)) cut in
    subst (λ (x : Decision). All (IsLabelled i x.entries) (shortlisted x.entries)) (sym made)
      (all-IsLabelled i r (straddles size cut) all
        (ap (ltb size)
          (length-shortlisted-conclude i r (straddles size cut) (enough_ballots i) cut))
        (λ n h.
          all_up_to-conclude i r (straddles size cut) (enough_ballots i) n cut
          ∙ last_rank size es r n found h)
        es)
