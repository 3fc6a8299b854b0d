-- ===== src/Govern/Tally/Cut.antt =====
-- The ranks of the entries climb, so the shortlist has at least the frozen number of candidates.
use mathlib.Core.Path.{subst}
use aimesh.Base.{
  ℕ, zero, suc, ◌≤◌, ◌-◌, ◌≡◌, refl, sym, String, Bool, true, List, [], ◌∷◌, map, some,
  Option-cases, length, keep, get_elem?, Bool-cases, inl, inr, leb, min, arith,
}
use aimesh.Base.Order.{sort_by}
use aimesh.Base.Outcome.{ok}
use aimesh.Govern.Decision.{DecisionInputs}
use aimesh.Govern.Tally.{
  entry_of, better, same_standing, rank_after, rank_entries, rank_at, DecisionEntry,
  mark_shortlisted, shortlisted, conclude, ranked_entries, decide, tally, Decision,
}
use aimesh.Govern.Tally.Claims.{TallyInput}
use aimesh.Govern.Tally.Standing.{rank_after-tie, rank_after-next, tally-Tallied}
use aimesh.Govern.Tally.Shortlist.{length-ranked_entries}

abbrev pub IsClimbing : ℕ → List DecisionEntry → Type 0
IsClimbing r [] = Unit
IsClimbing r (e ∷ es) = (r ≤ e.rank) × IsClimbing e.rank es

climb-down : (r s : ℕ) (es : List DecisionEntry) → r ≤ s → IsClimbing s es → IsClimbing r es
climb-down r s [] h c = tt
climb-down r s (e ∷ es) h c = (omega (arith, h, c.0), c.1)

rank_after-IsClimbing :
    (i : ℕ) (prev : DecisionEntry) (es : List DecisionEntry)
    → prev.rank ≤ i
    → IsClimbing prev.rank (rank_after i prev es)
unfolding rank_after
rank_after-IsClimbing i prev [] h = (omega arith, tt)
rank_after-IsClimbing i prev (e ∷ es) h = elim (Bool-cases (same_standing prev e)) [
  | inl same ↦ rw (rank_after-tie i prev e es same) (
    omega arith,
    rank_after-IsClimbing (suc i) (record e { rank = prev.rank; tied = true }) es
        (omega (arith, h)),
  )
  | inr new ↦ rw (rank_after-next i prev e es new) (
    omega arith,
    climb-down prev.rank (suc i) (rank_after (suc i) (record e { rank = suc i }) es)
        (omega (arith, h))
        (rank_after-IsClimbing (suc i) (record e { rank = suc i }) es (omega arith)),
  )
]

-- How many entries have a rank up to `r`.
abbrev pub up_to : ℕ → List DecisionEntry → List DecisionEntry
up_to r = keep λ (e : DecisionEntry). leb e.rank r

climb-get_elem? :
    (r : ℕ) (es : List DecisionEntry) (k : ℕ) (e : DecisionEntry)
    → IsClimbing r es
    → get_elem? es k ≡ some e
    → (r ≤ e.rank) × (suc k ≤ length (up_to e.rank es))
climb-get_elem? r [] k e c f = cc
climb-get_elem? r (x ∷ es) zero e c f =
    let same : x ≡ e = cc in
    subst (λ (y : DecisionEntry). (r ≤ y.rank) × (1 ≤ length (up_to y.rank (x ∷ es)))) same
      (c.0, ground arith)
climb-get_elem? r (x ∷ es) (suc k) e c f =
    let (later, more) = climb-get_elem? x.rank es k e c.1 f in
    (omega (arith, c.0, later), ground (arith, later, more))

rank_entries-IsClimbing : (es : List DecisionEntry) → IsClimbing 1 (rank_entries es)
unfolding rank_entries
rank_entries-IsClimbing [] = tt
rank_entries-IsClimbing (e ∷ es) = rank_after-IsClimbing 1 (record e { rank = 1 }) es (omega arith)

rank_at-up_to :
    (cut : ℕ) (es : List DecisionEntry) (r : ℕ)
    → IsClimbing 1 es
    → rank_at cut es ≡ some r
    → min cut (length es) ≤ length (up_to r es)
rank_at-up_to cut es r c f = elim (Option-cases (get_elem? es (min cut (length es) - 1))) [
  | inl n ↦ ground (arith, n, f)
  | inr h ↦
      let (e, found) = h in
      let rank : e.rank ≡ r = ground (arith, found, f) in
      let (_, more) = climb-get_elem? 1 es (min cut (length es) - 1) e c found in
      subst (λ n. min cut (length es) ≤ length (up_to n es)) rank (omega (arith, more))
]

shortlisted-conclude :
    (i : TallyInput) (r : ℕ) (over quorum : Bool) (es : List DecisionEntry)
    → length (shortlisted (map (conclude i r over quorum) (map (mark_shortlisted r) es)))
      ≡ length (up_to r es)
unfolding conclude
shortlisted-conclude i r over quorum [] = refl
shortlisted-conclude i r over quorum (e ∷ es) =
    ground (arith, shortlisted-conclude i r over quorum es)

-- The shortlist has at least as many candidates as it was frozen for, or all of them where fewer were
-- presented: a tie at the cut only adds to it.
pub tally-shortlisted :
    (digest : DecisionInputs → String) (i : TallyInput) (d : Decision)
    → tally digest i ≡ ok d
    → min i.frozen.inputs.shortlist_size (length i.frozen.inputs.presentation.order)
      ≤ length (shortlisted d.entries)
unfolding ranked_entries decide
tally-shortlisted digest i d e =
    let (t, r, (_, found, made)) = tally-Tallied digest i d e in
    let plain = map (entry_of i.partition.clusters t) i.frozen.inputs.presentation.order in
    let es = ranked_entries i t in
    let climbing = rank_entries-IsClimbing (sort_by better plain) in
    let all = rank_at-up_to i.frozen.inputs.shortlist_size es r climbing found in
    subst
      (λ (x : Decision).
        min i.frozen.inputs.shortlist_size (length i.frozen.inputs.presentation.order)
        ≤ length (shortlisted x.entries))
      (sym made) (omega (arith, all, length-ranked_entries i t, shortlisted-conclude i r _ _ es))
