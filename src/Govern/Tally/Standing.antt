-- ===== src/Govern/Tally/Standing.antt =====
-- What a decision was made from, and the order and the ranks of its entries.
use mathlib.Core.Path.{subst}
use mathlib.Core.List.{Perm}
use mathlib.Core.List.Perm
use aimesh.Base.{
  ℕ, suc, ◌≡◌, refl, sym, ap, ◌∙◌, String, Bool, true, false, List, [], ◌∷◌, map, some, Bool-cases,
  inl, inr, leb, ◌==◌, String_comparable, not,
}
use aimesh.Base.Order.{sort_by, sort_by-perm}
use aimesh.Base.Outcome.{ok, or_refuse, refuse, >>=-eq-ok, or_refuse-eq-ok}
use aimesh.Base.Text.{is_blank}
use aimesh.Canon.View.{Cluster}
use aimesh.Govern.Decision.{DecisionInputs}
use aimesh.Govern.Tally.{
  Tallies, no_votes, add_ballots, entry_of, better, same_standing, rank_after, rank_entries,
  rank_at, DecisionEntry, mark_shortlisted, conclude, ranked_entries, decide, tally, Decision,
  not_frozen, framing_changed, panics,
}
use aimesh.Govern.Tally.Claims.{TallyInput}

-- The tallies and the rank of the cut that a decision stands on.
abbrev pub Tallied : TallyInput → Decision → Tallies → ℕ → Type 0
Tallied i d t cut_rank =
    (add_ballots i.frozen.inputs.presentation.order i.ballots no_votes ≡ ok t)
    × (rank_at i.frozen.inputs.shortlist_size (ranked_entries i t) ≡ some cut_rank)
    × (d ≡ decide i (ranked_entries i t) cut_rank)

pub tally-Tallied :
    (digest : DecisionInputs → String) (i : TallyInput) (d : Decision)
    → tally digest i ≡ ok d
    → (t : Tallies) × (cut_rank : ℕ) × Tallied i d t cut_rank
unfolding tally
tally-Tallied digest i d e =
    let (u, frozen, e1) = >>=-eq-ok (refuse (is_blank i.frozen.inputs_hash) not_frozen) _ e in
    let (v, same, e2) =
      >>=-eq-ok (refuse (not (i.frozen.inputs_hash == digest i.frozen.inputs)) framing_changed) _
        e1 in
    let (t, added, e3) =
      >>=-eq-ok (add_ballots i.frozen.inputs.presentation.order i.ballots no_votes) _ e2 in
    let (cut_rank, found, e4) =
      >>=-eq-ok (or_refuse (rank_at i.frozen.inputs.shortlist_size (ranked_entries i t)) panics) _
        e3 in
    (t, cut_rank, (added, or_refuse-eq-ok _ _ found, cc))

module _ (i : ℕ) (prev e : DecisionEntry) (es : List DecisionEntry) where
  pub rank_after-tie :
      same_standing prev e ≡ true
      → rank_after i prev (e ∷ es)
        ≡ record prev { tied = true }
          ∷ rank_after (suc i) (record e { rank = prev.rank; tied = true }) es
  unfolding rank_after
  rank_after-tie h = rw (h, rank_after) refl

  pub rank_after-next :
      same_standing prev e ≡ false
      → rank_after i prev (e ∷ es) ≡ prev ∷ rank_after (suc i) (record e { rank = suc i }) es
  unfolding rank_after
  rank_after-next h = rw (h, rank_after) refl

abbrev pub ids_of : List DecisionEntry → List String
ids_of = map λ e. e.canonical_id

rank_after-ids :
    (i : ℕ) (prev : DecisionEntry) (es : List DecisionEntry)
    → ids_of (rank_after i prev es) ≡ prev.canonical_id ∷ ids_of es
unfolding rank_after
rank_after-ids i prev [] = refl
rank_after-ids i prev (e ∷ es) = elim (Bool-cases (same_standing prev e)) [
  | inl h ↦
      ap ids_of (rank_after-tie i prev e es h)
      ∙ ap (◌∷◌ prev.canonical_id)
          (rank_after-ids (suc i) (record e { rank = prev.rank; tied = true }) es)
  | inr h ↦
      ap ids_of (rank_after-next i prev e es h)
      ∙ ap (◌∷◌ prev.canonical_id) (rank_after-ids (suc i) (record e { rank = suc i }) es)
]

rank_entries-ids : (es : List DecisionEntry) → ids_of (rank_entries es) ≡ ids_of es
unfolding rank_entries
rank_entries-ids [] = refl
rank_entries-ids (e ∷ es) = rank_after-ids 1 (record e { rank = 1 }) es

conclude-ids :
    (i : TallyInput) (cut_rank : ℕ) (over quorum : Bool) (es : List DecisionEntry)
    → ids_of (map (conclude i cut_rank over quorum) (map (mark_shortlisted cut_rank) es))
      ≡ ids_of es
unfolding conclude
conclude-ids i cut_rank over quorum [] = refl
conclude-ids i cut_rank over quorum (e ∷ es) = elim (Bool-cases (leb e.rank cut_rank)) [
  | inl h ↦ rw h (ap (◌∷◌ e.canonical_id) (conclude-ids i cut_rank over quorum es))
  | inr h ↦ rw h (ap (◌∷◌ e.canonical_id) (conclude-ids i cut_rank over quorum es))
]

entries-ids :
    (cs : List Cluster) (t : Tallies) (ids : List String) → ids_of (map (entry_of cs t) ids) ≡ ids
entries-ids cs t [] = refl
entries-ids cs t (id ∷ ids) = ap (◌∷◌ id) (entries-ids cs t ids)

map-Perm : (xs ys : List DecisionEntry) → Perm xs ys → Perm (ids_of xs) (ids_of ys)
map-Perm xs ys p = Perm.map _ p

-- A decision ranks every option that was presented, each as often as it was, and nothing else.
pub tally-perm :
    (digest : DecisionInputs → String) (i : TallyInput) (d : Decision)
    → tally digest i ≡ ok d
    → Perm (ids_of d.entries) i.frozen.inputs.presentation.order
unfolding ranked_entries decide
tally-perm digest i d e =
    let (t, cut_rank, (_, _, made)) = tally-Tallied digest i d e in
    let order = i.frozen.inputs.presentation.order in
    let plain = map (entry_of i.partition.clusters t) order in
    let ids : ids_of d.entries ≡ ids_of (sort_by better plain) =
      ap (λ (x : Decision). ids_of x.entries) made
      ∙ conclude-ids i cut_rank _ _ (ranked_entries i t)
      ∙ rank_entries-ids (sort_by better plain) in
    subst (λ xs. Perm xs order) (sym ids)
      (subst (λ ys. Perm (ids_of (sort_by better plain)) ys)
        (entries-ids i.partition.clusters t order)
        (map-Perm (sort_by better plain) plain (sort_by-perm better plain)))
