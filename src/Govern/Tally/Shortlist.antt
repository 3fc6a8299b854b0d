-- ===== src/Govern/Tally/Shortlist.antt =====
-- When a tally is made, and how many candidates its shortlist has.
use mathlib.Core.Path.{subst}
use aimesh.Canon.Presented.{Presentation}
use aimesh.Base.{
  ℕ, zero, suc, ◌-◌, ◌≤◌, ◌<◌, ◌≡◌, ◌↔◌, refl, sym, ap, ◌∙◌, String, true, false, not, List, [],
  ◌∷◌, map, some, length, length-map, get_elem?, All, Bool-cases, inl, inr, min, arith, ◌==◌,
  String_comparable,
}
use aimesh.Base.Order.{sort_by, length-sort_by}
use aimesh.Base.Outcome.{
  ok, IsOk, ◌>>◌, or_refuse, refuse, wrap_err, >>=-eq-ok, or_refuse-eq-ok, wrap_err-eq-ok,
}
use aimesh.Base.Text.{is_blank}
use aimesh.Canon.View.{Result}
use aimesh.Govern.Policy.{Panel}
use aimesh.Govern.Decision.{Criterion, DecisionMethod, DecisionInputs, freeze_decision}
use aimesh.Govern.Decision.Frozen.{freeze_decision_iff}
use aimesh.Govern.Ballot.{Ballot, validate_ballot}
use aimesh.Govern.Tally.{
  Tallies, ballot_refused, no_votes, add_approved, add_ranking, add_ballots, entry_of, better,
  same_standing, rank_after, rank_entries, rank_at, DecisionEntry, ranked_entries, decide, tally,
  panics, not_frozen, framing_changed,
}
use aimesh.Govern.Tally.Claims.{TallyInput}
use aimesh.Govern.Tally.Standing.{rank_after-tie, rank_after-next}

abbrev pub AllValid : List String → List Ballot → Type 0
AllValid order bs = All (λ b. IsOk (validate_ballot order b)) bs

add_ballots_iff :
    (order : List String) (bs : List Ballot) (t : Tallies)
    → IsOk (add_ballots order bs t) ↔ AllValid order bs
unfolding add_ballots
add_ballots_iff order [] t = (λ _. tt, λ _. (t, refl))
add_ballots_iff order (b ∷ bs) t =
    let after = add_approved b.approved (add_ranking (length order) b.by 0 b.ranking t) in
    let later = add_ballots_iff order bs after in
    (
      λ o.
          let (u, valid, rest) =
            >>=-eq-ok (wrap_err ballot_refused (validate_ballot order b)) _ o.1 in
          ((u, wrap_err-eq-ok ballot_refused (validate_ballot order b) valid), later.0 (o.0, rest)),
      λ h.
          let (final, added) = later.1 h.1 in
          (final, ap (λ m. wrap_err ballot_refused m >> add_ballots order bs after) h.0.1 ∙ added),
    )

length-rank_after :
    (i : ℕ) (prev : DecisionEntry) (es : List DecisionEntry)
    → length (rank_after i prev es) ≡ suc (length es)
unfolding rank_after
length-rank_after i prev [] = refl
length-rank_after i prev (e ∷ es) = elim (Bool-cases (same_standing prev e)) [
  | inl h ↦
      ap length (rank_after-tie i prev e es h)
      ∙ ap suc (length-rank_after (suc i) (record e { rank = prev.rank; tied = true }) es)
  | inr h ↦
      ap length (rank_after-next i prev e es h)
      ∙ ap suc (length-rank_after (suc i) (record e { rank = suc i }) es)
]

length-rank_entries : (es : List DecisionEntry) → length (rank_entries es) ≡ length es
unfolding rank_entries
length-rank_entries [] = refl
length-rank_entries (e ∷ es) = length-rank_after 1 (record e { rank = 1 }) es

pub length-ranked_entries :
    (i : TallyInput) (t : Tallies)
    → length (ranked_entries i t) ≡ length i.frozen.inputs.presentation.order
unfolding ranked_entries
length-ranked_entries i t =
    let order = i.frozen.inputs.presentation.order in
    let plain = map (entry_of i.partition.clusters t) order in
    length-rank_entries (sort_by better plain)
    ∙ length-sort_by better plain
    ∙ length-map (entry_of i.partition.clusters t) order

get_elem?-some :
    (es : List DecisionEntry) (k : ℕ)
    → k < length es
    → (e : DecisionEntry) × (get_elem? es k ≡ some e)
get_elem?-some [] k h = absurd (omega (arith, h))
get_elem?-some (e ∷ es) zero h = (e, refl)
get_elem?-some (e ∷ es) (suc k) h = get_elem?-some es k (omega (arith, h))

rank_at_iff :
    (cut : ℕ) (es : List DecisionEntry)
    → ((r : ℕ) × (rank_at cut es ≡ some r)) ↔ ((1 ≤ cut) × (1 ≤ length es))
rank_at_iff cut es = (
  λ o. (ground (arith, o.1), ground (arith, o.1)),
  λ h.
      let (e, found) = get_elem?-some es (min cut (length es) - 1) (omega (arith, h)) in
      (e.rank, ground (arith, found, h)),
)

-- A tally is made exactly if the frozen inputs are the ones that their digest names, every ballot is
-- valid, the shortlist has a size and an option was presented.
pub tally_iff :
    (digest : DecisionInputs → String) (i : TallyInput)
    → IsOk (tally digest i) ↔ (
        (is_blank i.frozen.inputs_hash ≡ false)
        × (i.frozen.inputs_hash ≡ digest i.frozen.inputs)
        × AllValid i.frozen.inputs.presentation.order i.ballots
        × (1 ≤ i.frozen.inputs.shortlist_size)
        × (1 ≤ length i.frozen.inputs.presentation.order))
unfolding tally
tally_iff digest i =
    let order = i.frozen.inputs.presentation.order in
    let size = i.frozen.inputs.shortlist_size in
    let same = String_comparable.same_iff i.frozen.inputs_hash (digest i.frozen.inputs) in
    (
      λ o.
          let (u, frozen, e1) =
            >>=-eq-ok (refuse (is_blank i.frozen.inputs_hash) not_frozen) _ o.1 in
          let (v, kept, e2) =
            >>=-eq-ok
              (refuse (not (i.frozen.inputs_hash == digest i.frozen.inputs)) framing_changed) _
              e1 in
          let (t, added, e3) = >>=-eq-ok (add_ballots order i.ballots no_votes) _ e2 in
          let (r, found, e4) =
            >>=-eq-ok (or_refuse (rank_at size (ranked_entries i t)) panics) _ e3 in
          let inside = (rank_at_iff size (ranked_entries i t)).0 (r, or_refuse-eq-ok _ _ found) in
          (
            ground (arith, frozen),
            same.0 (ground (arith, kept)),
            (add_ballots_iff order i.ballots no_votes).0 (t, added),
            inside.0,
            omega (arith, inside.1, length-ranked_entries i t),
          ),
      λ h.
          let (t, added) = (add_ballots_iff order i.ballots no_votes).1 h.2 in
          let (r, found) =
            (rank_at_iff size (ranked_entries i t)).1
              (h.3, omega (arith, h.4, length-ranked_entries i t)) in
          (decide i (ranked_entries i t) r, ground (arith, h.0, same.1 h.1, added, found)),
    )

module _ (digest : DecisionInputs → String) (p : Panel) (universe : Result) (pres : Presentation)
    (criteria : List Criterion) (method : DecisionMethod) (size : ℕ) where
  -- A decision that was frozen under a digest that is not blank is tallied exactly if every ballot is
  -- valid for the options that it presents: no other refusal and no panic can come.
  pub tally-freeze_decision :
      (i : TallyInput)
      → freeze_decision digest p universe pres criteria method size ≡ ok i.frozen
      → is_blank (digest i.frozen.inputs) ≡ false
      → IsOk (tally digest i) ↔ AllValid pres.order i.ballots
  tally-freeze_decision i e h =
      let frozen = (freeze_decision_iff digest p universe pres criteria method size i.frozen).0 e in
      let sound = frozen.0 in
      let order : i.frozen.inputs.presentation.order ≡ pres.order =
        ap (λ (d : DecisionInputs). d.presentation.order) frozen.1 in
      let made = tally_iff digest i in
      (
        λ o. subst (λ ids. AllValid ids i.ballots) order (made.0 o).2,
        λ valid. made.1 (
          rw frozen.2 h,
          frozen.2,
          subst (λ ids. AllValid ids i.ballots) (sym order) valid,
          sound.4,
          omega (arith, sound.4, sound.5),
        ),
      )
