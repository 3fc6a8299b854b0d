-- ===== src/Govern/Tally/Ballots.antt =====
-- The tally counts what the ballots say: an independent count of each candidate, ballot by ballot.
use mathlib.Core.Path.{subst}
use aimesh.Govern.Tally.Standing.{rank_after-tie, rank_after-next, tally-Tallied}
use aimesh.Base.{
  ℕ, suc, ◌+◌, ◌≡◌, sym, String, Bool, true, List, [], ◌∷◌, map, length, All, Bool-cases, inl, inr,
  leb, length-append, arith, String_comparable, ◌==◌, if◌then◌else◌,
}
use aimesh.Base.Order.{sort_by, sort_by-keeps}
use aimesh.Base.Outcome.{Outcome, ok, wrap_err, >>=-eq-ok}
use aimesh.Govern.Ballot.{Ballot, validate_ballot}
use aimesh.Canon.View.{Cluster}
use aimesh.Schema.{ExplorerIdentity}
use aimesh.Govern.Decision.{DecisionInputs}
use aimesh.Govern.Tally.{
  Tallies, Agg, TallyError, no_votes, points, at, placed, approve, add_ranking, add_approved,
  add_ballots, entry_of, better, same_standing, rank_after, rank_entries, DecisionEntry,
  mark_shortlisted, conclude, ranked_entries, decide, tally, Decision, ballot_refused,
}
use aimesh.Govern.Tally.Claims.{TallyInput}

-- The points of a candidate in a ranking from position `i` on, among `n` options.
abbrev pub points_in : ℕ → ℕ → String → List String → ℕ
points_in n i id [] = 0
points_in n i id (x ∷ xs) = (if id == x then points n i else 0) + points_in n (suc i) id xs

abbrev pub mentions : String → List String → ℕ
mentions id [] = 0
mentions id (x ∷ xs) = (if id == x then 1 else 0) + mentions id xs

-- Over all the ballots.
abbrev pub total_points : ℕ → String → List Ballot → ℕ
total_points n id [] = 0
total_points n id (b ∷ bs) = points_in n 0 id b.ranking + total_points n id bs

abbrev pub total_approvals : String → List Ballot → ℕ
total_approvals id [] = 0
total_approvals id (b ∷ bs) = mentions id b.approved + total_approvals id bs

abbrev pub total_placings : String → List Ballot → ℕ
total_placings id [] = 0
total_placings id (b ∷ bs) = mentions id b.ranking + total_placings id bs

add_ranking_lem :
    (n : ℕ) (by : ExplorerIdentity) (i : ℕ) (ids : List String) (t : Tallies) (id : String)
    → ((add_ranking n by i ids t id).score ≡ (t id).score + points_in n i id ids)
      × ((add_ranking n by i ids t id).approvals ≡ (t id).approvals)
      × (length (add_ranking n by i ids t id).voters ≡ length (t id).voters + mentions id ids)
unfolding add_ranking
add_ranking_lem n by i [] t id = ground arith
add_ranking_lem n by i (x ∷ ids) t id =
    let before = t id in
    ground (
      arith,
      add_ranking_lem n by (suc i) ids (at x (placed (points n i) by) t) id,
      length-append before.voters (by ∷ []),
    )

add_approved_lem :
    (ids : List String) (t : Tallies) (id : String)
    → ((add_approved ids t id).score ≡ (t id).score)
      × ((add_approved ids t id).approvals ≡ (t id).approvals + mentions id ids)
      × (length (add_approved ids t id).voters ≡ length (t id).voters)
unfolding add_approved
add_approved_lem [] t id = ground arith
add_approved_lem (x ∷ ids) t id = ground (arith, add_approved_lem ids (at x approve t) id)

-- A candidate's votes in full.
abbrev pub IsCount : List Ballot → ℕ → String → Agg → Agg → Type 0
IsCount bs n id before after =
    (after.score ≡ before.score + total_points n id bs)
    × (after.approvals ≡ before.approvals + total_approvals id bs)
    × (length after.voters ≡ length before.voters + total_placings id bs)

ok-injective : (a b : Tallies) → ◌≡◌ {A = Outcome TallyError Tallies} (ok a) (ok b) → a ≡ b
ok-injective a b e = cc

add_ballots_lem :
    (order : List String) (bs : List Ballot) (t final : Tallies) (id : String)
    → add_ballots order bs t ≡ ok final
    → IsCount bs (length order) id (t id) (final id)
unfolding add_ballots
add_ballots_lem order [] t final id e =
    subst (λ (f : Tallies). IsCount [] (length order) id (t id) (f id)) (ok-injective t final e)
      (omega arith, omega arith, omega arith)
add_ballots_lem order (b ∷ bs) t final id e =
    let n = length order in
    let after_ranking = add_ranking n b.by 0 b.ranking t in
    let after = add_approved b.approved after_ranking in
    let (u, valid, rest) = >>=-eq-ok (wrap_err ballot_refused (validate_ballot order b)) _ e in
    omega (
      arith,
      add_ballots_lem order bs after final id rest,
      add_approved_lem b.approved after_ranking id,
      add_ranking_lem n b.by 0 b.ranking t id,
    )

-- An entry states the votes of its candidate.
abbrev pub IsCounted : List Ballot → ℕ → DecisionEntry → Type 0
IsCounted bs n e =
    (e.score ≡ total_points n e.canonical_id bs)
    × (e.approvals ≡ total_approvals e.canonical_id bs)
    × (e.support ≡ total_placings e.canonical_id bs)

module _ (bs : List Ballot) (n : ℕ) where
  entries-IsCounted :
      (cs : List Cluster) (t : Tallies) (ids : List String)
      → ((id : String) → IsCount bs n id (no_votes id) (t id))
      → All (IsCounted bs n) (map (entry_of cs t) ids)
  entries-IsCounted cs t [] h = tt
  entries-IsCounted cs t (id ∷ ids) h = (
    (omega (arith, (h id).0), omega (arith, (h id).1), omega (arith, (h id).2)),
    entries-IsCounted cs t ids h,
  )

  rank_after-IsCounted :
      (i : ℕ) (prev : DecisionEntry) (es : List DecisionEntry)
      → IsCounted bs n prev
      → All (IsCounted bs n) es
      → All (IsCounted bs n) (rank_after i prev es)
  unfolding rank_after
  rank_after-IsCounted i prev [] h a = (h, tt)
  rank_after-IsCounted i prev (e ∷ es) h a = elim (Bool-cases (same_standing prev e)) [
    | inl same ↦
        rw (rank_after-tie i prev e es same)
          (h, rank_after-IsCounted (suc i) (record e { rank = prev.rank; tied = true }) es a.0 a.1)
    | inr new ↦
        rw (rank_after-next i prev e es new)
          (h, rank_after-IsCounted (suc i) (record e { rank = suc i }) es a.0 a.1)
  ]

  rank_entries-IsCounted :
      (es : List DecisionEntry) → All (IsCounted bs n) es → All (IsCounted bs n) (rank_entries es)
  unfolding rank_entries
  rank_entries-IsCounted [] a = tt
  rank_entries-IsCounted (e ∷ es) a = rank_after-IsCounted 1 (record e { rank = 1 }) es a.0 a.1

  conclude-IsCounted :
      (i : TallyInput) (cut_rank : ℕ) (over quorum : Bool) (es : List DecisionEntry)
      → All (IsCounted bs n) es
      → All
          (IsCounted bs n)
          (map (conclude i cut_rank over quorum) (map (mark_shortlisted cut_rank) es))
  unfolding conclude
  conclude-IsCounted i cut_rank over quorum [] a = tt
  conclude-IsCounted i cut_rank over quorum (e ∷ es) a = elim (Bool-cases (leb e.rank cut_rank)) [
    | inl h ↦ rw h (a.0, conclude-IsCounted i cut_rank over quorum es a.1)
    | inr h ↦ rw h (a.0, conclude-IsCounted i cut_rank over quorum es a.1)
  ]

-- Every entry of a decision states the points, the approvals and the placings that its candidate has
-- on the ballots: position `i` of `n` options is worth `n - i` points, and at least one.
pub tally-IsCounted :
    (digest : DecisionInputs → String) (i : TallyInput) (d : Decision)
    → tally digest i ≡ ok d
    → All (IsCounted i.ballots (length i.frozen.inputs.presentation.order)) d.entries
unfolding tally ranked_entries decide
tally-IsCounted digest i d e =
    let (t, cut_rank, (added, _, made)) = tally-Tallied digest i d e in
    let order = i.frozen.inputs.presentation.order in
    let n = length order in
    let plain = map (entry_of i.partition.clusters t) order in
    let counted =
      entries-IsCounted i.ballots n i.partition.clusters t order
        λ id. add_ballots_lem order i.ballots no_votes t id added in
    let listed =
      rank_entries-IsCounted i.ballots n (sort_by better plain)
        (sort_by-keeps _ better plain counted) in
    subst (λ (x : Decision). All (IsCounted i.ballots n) x.entries) (sym made)
      (conclude-IsCounted i.ballots n i cut_rank _ _ (ranked_entries i t) listed)
