-- ===== src/Govern/Tally/Ranks.antt =====
-- The rank of an entry says how many entries stand better.
use mathlib.Core.Path.{subst}
use aimesh.Base.{
  ℕ, suc, ◌+◌, ◌≡◌, refl, sym, ap, ◌∙◌, String, Bool, true, false, List, [], ◌∷◌, ◌++◌, map, length,
  length-append, All, All-append, Bool-cases, inl, inr, leb, arith, if◌then◌else◌,
}
use aimesh.Base.Order.{sort_by, IsSortedBy, sort_by-IsSortedBy}
use aimesh.Base.Outcome.{ok}
use aimesh.Govern.Decision.{DecisionInputs}
use aimesh.Govern.Tally.{
  entry_of, better, same_standing, rank_after, rank_entries, DecisionEntry, mark_shortlisted,
  conclude, ranked_entries, decide, tally, Decision,
}
use aimesh.Govern.Tally.Claims.{TallyInput}
use aimesh.Govern.Tally.Standing.{rank_after-tie, rank_after-next, tally-Tallied}
use aimesh.Govern.Tally.Ahead.{
  outranks, ahead_of, NotAhead, ahead_of-append, ahead_of-NoneAhead, ahead_of-same, ahead_of-all,
  NotAhead-worse, better-IsWeakOrder, falling, IsRankedIn,
}

-- What the ranking loop knows: `before` stands before `prev` and does not fall behind it.
record Reached (i : ℕ) (before : List DecisionEntry) (prev : DecisionEntry)
    (es : List DecisionEntry) : Type 0 where
  counted : suc (length before) ≡ i
  ranked : prev.rank ≡ suc (ahead_of prev before)
  behind : NotAhead prev before
  sorted : IsSortedBy outranks (prev ∷ es)

tie-Reached :
    (i : ℕ) (before : List DecisionEntry) (prev e : DecisionEntry) (es : List DecisionEntry)
    → Reached i before prev (e ∷ es)
    → same_standing prev e ≡ true
    → Reached (suc i) (before ++ (prev ∷ [])) (record e { rank = prev.rank; tied = true }) es
tie-Reached i before prev e es r same = record {
  counted = omega (arith, r.counted, length-append before (prev ∷ []));
  ranked = ground (
    arith,
    r.ranked,
    ahead_of-append e before (prev ∷ []),
    ahead_of-same prev e before same,
    same,
  );
  behind =
      All-append (λ x. outranks e x ≡ false) before (prev ∷ [])
        (NotAhead-worse prev e before r.sorted.0.0 r.behind) (r.sorted.0.0, tt);
  sorted = r.sorted.1;
}

next-Reached :
    (i : ℕ) (before : List DecisionEntry) (prev e : DecisionEntry) (es : List DecisionEntry)
    → Reached i before prev (e ∷ es)
    → same_standing prev e ≡ false
    → Reached (suc i) (before ++ (prev ∷ [])) (record e { rank = suc i }) es
next-Reached i before prev e es r new =
    let worse : outranks prev e ≡ true = ground (arith, r.sorted.0.0, new) in
    record {
      counted = omega (arith, r.counted, length-append before (prev ∷ []));
      ranked = ground (
        arith,
        r.counted,
        ahead_of-append e before (prev ∷ []),
        ahead_of-all prev e before r.behind worse,
        worse,
      );
      behind =
          All-append (λ x. outranks e x ≡ false) before (prev ∷ [])
            (NotAhead-worse prev e before r.sorted.0.0 r.behind) (r.sorted.0.0, tt);
      sorted = r.sorted.1;
    }

Reached-IsRankedIn :
    (i : ℕ) (before : List DecisionEntry) (prev : DecisionEntry) (es : List DecisionEntry)
    → Reached i before prev es
    → IsRankedIn (before ++ (prev ∷ es)) prev
Reached-IsRankedIn i before prev es r = ground (
  arith,
  r.ranked,
  ahead_of-append prev before (prev ∷ es),
  ahead_of-NoneAhead prev es r.sorted.0,
)

-- Two lists that put as many entries ahead of everybody; the ranks themselves do not matter.
abbrev pub StandsAs : List DecisionEntry → List DecisionEntry → Type 0
StandsAs xs ys = (e : DecisionEntry) → ahead_of e xs ≡ ahead_of e ys

passed-StandsAs :
    (before : List DecisionEntry) (prev e f : DecisionEntry) (es all : List DecisionEntry)
    → ((x : DecisionEntry) → outranks f x ≡ outranks e x)
    → StandsAs (before ++ (prev ∷ e ∷ es)) all
    → StandsAs ((before ++ (prev ∷ [])) ++ (f ∷ es)) all
passed-StandsAs before prev e f es all same h x = ground (
  arith,
  h x,
  same x,
  ahead_of-append x before (prev ∷ e ∷ es),
  ahead_of-append x before (prev ∷ []),
  ahead_of-append x (before ++ (prev ∷ [])) (f ∷ es),
)

rank_after-IsRankedIn :
    (i : ℕ) (before : List DecisionEntry) (prev : DecisionEntry) (es all : List DecisionEntry)
    → Reached i before prev es
    → StandsAs (before ++ (prev ∷ es)) all
    → All (IsRankedIn all) (rank_after i prev es)
unfolding rank_after
rank_after-IsRankedIn i before prev [] all r h =
    (Reached-IsRankedIn i before prev [] r ∙ ap suc (h prev), tt)
rank_after-IsRankedIn i before prev (e ∷ es) all r h =
    let here = Reached-IsRankedIn i before prev (e ∷ es) r ∙ ap suc (h prev) in
    elim (Bool-cases (same_standing prev e)) [
      | inl same ↦
          let f : DecisionEntry = record e { rank = prev.rank; tied = true } in
          rw (rank_after-tie i prev e es same) (
            here,
            rank_after-IsRankedIn (suc i) (before ++ (prev ∷ [])) f es all
                (tie-Reached i before prev e es r same)
                (passed-StandsAs before prev e f es all (λ x. refl) h),
          )
      | inr new ↦
          let f : DecisionEntry = record e { rank = suc i } in
          rw (rank_after-next i prev e es new) (
            here,
            rank_after-IsRankedIn (suc i) (before ++ (prev ∷ [])) f es all
                (next-Reached i before prev e es r new)
                (passed-StandsAs before prev e f es all (λ x. refl) h),
          )
    ]

rank_entries-IsRankedIn :
    (es all : List DecisionEntry)
    → IsSortedBy outranks es
    → StandsAs es all
    → All (IsRankedIn all) (rank_entries es)
unfolding rank_entries
rank_entries-IsRankedIn [] all s h = tt
rank_entries-IsRankedIn (e ∷ es) all s h =
    rank_after-IsRankedIn 1 [] (record e { rank = 1 }) es all
      (record { counted = refl; ranked = refl; behind = tt; sorted = s }) h

rank_after-StandsAs :
    (i : ℕ) (prev : DecisionEntry) (es : List DecisionEntry)
    → StandsAs (prev ∷ es) (rank_after i prev es)
unfolding rank_after
rank_after-StandsAs i prev [] x = refl
rank_after-StandsAs i prev (e ∷ es) x = elim (Bool-cases (same_standing prev e)) [
  | inl same ↦ rw (rank_after-tie i prev e es same) (
      ground (arith, rank_after-StandsAs (suc i) (record e { rank = prev.rank; tied = true }) es x))
  | inr new ↦
      rw (rank_after-next i prev e es new)
        (ground (arith, rank_after-StandsAs (suc i) (record e { rank = suc i }) es x))
]

rank_entries-StandsAs : (es : List DecisionEntry) → StandsAs es (rank_entries es)
unfolding rank_entries
rank_entries-StandsAs [] x = refl
rank_entries-StandsAs (e ∷ es) x = rank_after-StandsAs 1 (record e { rank = 1 }) es x

module _ (i : TallyInput) (cut_rank : ℕ) (over quorum : Bool) where
  abbrev concluded : List DecisionEntry → List DecisionEntry
  concluded es = map (conclude i cut_rank over quorum) (map (mark_shortlisted cut_rank) es)

  concluded-StandsAs : (es : List DecisionEntry) → StandsAs es (concluded es)
  unfolding conclude
  concluded-StandsAs [] x = refl
  concluded-StandsAs (e ∷ es) x = elim (Bool-cases (leb e.rank cut_rank)) [
    | inl h ↦ rw h (ap (λ n. (if outranks e x then 1 else 0) + n) (concluded-StandsAs es x))
    | inr h ↦ rw h (ap (λ n. (if outranks e x then 1 else 0) + n) (concluded-StandsAs es x))
  ]

  concluded-IsRankedIn :
      (es all : List DecisionEntry) → All (IsRankedIn all) es → All (IsRankedIn all) (concluded es)
  unfolding conclude
  concluded-IsRankedIn [] all h = tt
  concluded-IsRankedIn (e ∷ es) all h = elim (Bool-cases (leb e.rank cut_rank)) [
    | inl k ↦ rw k (h.0, concluded-IsRankedIn es all h.1)
    | inr k ↦ rw k (h.0, concluded-IsRankedIn es all h.1)
  ]

-- The rank of each entry of a decision is one more than the number of its entries that have more
-- points, or as many points from more ballots, or as many of both and more approvals.
pub tally-IsRankedIn :
    (digest : DecisionInputs → String) (i : TallyInput) (d : Decision)
    → tally digest i ≡ ok d
    → All (IsRankedIn d.entries) d.entries
unfolding ranked_entries decide
tally-IsRankedIn digest i d e =
    let (t, r, (_, _, made)) = tally-Tallied digest i d e in
    let plain = map (entry_of i.partition.clusters t) i.frozen.inputs.presentation.order in
    let sorted = sort_by better plain in
    let order = falling sorted (sort_by-IsSortedBy better better-IsWeakOrder plain) in
    let listed = rank_entries sorted in
    subst (λ (x : Decision). All (IsRankedIn x.entries) x.entries) (sym made)
      (concluded-IsRankedIn i r _ _ listed _ (
        rank_entries-IsRankedIn sorted _ order
          λ x. rank_entries-StandsAs sorted x ∙ concluded-StandsAs i r _ _ listed x))
