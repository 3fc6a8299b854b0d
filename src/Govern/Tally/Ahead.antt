-- ===== src/Govern/Tally/Ahead.antt =====
-- Which entries of a tally stand ahead of others.
use aimesh.Base.{
  ℕ, suc, ◌+◌, ◌≡◌, refl, Bool, true, false, not, List, [], ◌∷◌, ◌++◌, length, All, ltb, eqb, arith,
  if◌then◌else◌,
}
use aimesh.Base.Order.{IsWeakOrder, IsSortedBy}
use aimesh.Base.Text.{text_lt_chain, text_lt_asym}
use aimesh.Govern.Tally.{better, same_standing, DecisionEntry}

-- More points; or as many from more ballots; or as many and more approvals.
abbrev pub outranks : DecisionEntry → DecisionEntry → Bool
outranks a b =
    if not (eqb a.score b.score)
    then ltb b.score a.score
    else if not (eqb a.support b.support)
    then ltb b.support a.support
    else ltb b.approvals a.approvals

-- How many entries of a list outrank one.
abbrev pub ahead_of : DecisionEntry → List DecisionEntry → ℕ
ahead_of e [] = 0
ahead_of e (x ∷ xs) = (if outranks x e then 1 else 0) + ahead_of e xs

better-outranks : (a b : DecisionEntry) → better a b ≡ false → outranks a b ≡ false
unfolding better
better-outranks a b h = ground arith

pub better-IsWeakOrder : IsWeakOrder better
unfolding better
better-IsWeakOrder = record {
  asym = λ a b h. ground (arith, text_lt_asym a.canonical_id b.canonical_id);
  chain = λ a b c h k. ground (arith, text_lt_chain a.canonical_id b.canonical_id c.canonical_id);
}

pub ahead_of-append :
    (e : DecisionEntry) (xs ys : List DecisionEntry)
    → ahead_of e (xs ++ ys) ≡ ahead_of e xs + ahead_of e ys
ahead_of-append e [] ys = omega arith
ahead_of-append e (x ∷ xs) ys = omega (arith, ahead_of-append e xs ys)

-- Nobody of a list outranks `e`.
abbrev pub NoneAhead : DecisionEntry → List DecisionEntry → Type 0
NoneAhead e xs = All (λ x. outranks x e ≡ false) xs

abbrev pub NotAhead : DecisionEntry → List DecisionEntry → Type 0
NotAhead e xs = All (λ x. outranks e x ≡ false) xs

pub ahead_of-NoneAhead :
    (e : DecisionEntry) (xs : List DecisionEntry) → NoneAhead e xs → ahead_of e xs ≡ 0
ahead_of-NoneAhead e [] h = refl
ahead_of-NoneAhead e (x ∷ xs) h = ground (arith, ahead_of-NoneAhead e xs h.1)

pub ahead_of-same :
    (a b : DecisionEntry) (xs : List DecisionEntry)
    → same_standing a b ≡ true
    → ahead_of a xs ≡ ahead_of b xs
ahead_of-same a b [] h = refl
ahead_of-same a b (x ∷ xs) h = ground (arith, ahead_of-same a b xs h)

-- Everybody of a list that nothing in it falls behind `prev` outranks whom `prev` outranks.
pub ahead_of-all :
    (prev e : DecisionEntry) (xs : List DecisionEntry)
    → NotAhead prev xs
    → outranks prev e ≡ true
    → ahead_of e xs ≡ length xs
ahead_of-all prev e [] h k = refl
ahead_of-all prev e (x ∷ xs) h k =
    let here : outranks x e ≡ true = ground (arith, h.0, k) in
    ground (arith, here, ahead_of-all prev e xs h.1 k)

pub NotAhead-worse :
    (prev e : DecisionEntry) (xs : List DecisionEntry)
    → outranks e prev ≡ false
    → NotAhead prev xs
    → NotAhead e xs
NotAhead-worse prev e [] k h = tt
NotAhead-worse prev e (x ∷ xs) k h = (ground (arith, h.0, k), NotAhead-worse prev e xs k h.1)

-- Each entry of a list is ranked by how many of `all` outrank it.
abbrev pub IsRankedIn : List DecisionEntry → DecisionEntry → Type 0
IsRankedIn all e = e.rank ≡ suc (ahead_of e all)

pub falling : (es : List DecisionEntry) → IsSortedBy better es → IsSortedBy outranks es
falling [] s = tt
falling (e ∷ es) s = (below e es s.0, falling es s.1)
  where
    below :
        (x : DecisionEntry) (xs : List DecisionEntry)
        → All (λ y. better y x ≡ false) xs
        → NoneAhead x xs
    below x [] a = tt
    below x (y ∷ ys) a = (better-outranks y x a.0, below x ys a.1)
