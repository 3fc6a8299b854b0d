-- ===== src/Canon/Dual/Housed.antt =====
-- What `assignments` accepts, and what it returns.
use mathlib.Core.Path.{subst}
use aimesh.Base.{
  ℕ, zero, suc, ◌≤◌, ◌<◌, ◌≡◌, ◌↔◌, refl, sym, ap, ◌∙◌, true, false, Bool-cases, List, [], ◌∷◌,
  none, some, inl, inr, length, ltb, All, arith, get_elem?, String_comparable,
}
use aimesh.Base.Int.{ℤ, pos, negsuc}
use aimesh.Base.Outcome.{ok, IsOk, >>=-eq-ok}
use aimesh.Canon.Ledger.{Nomination, ProposedCluster}
use aimesh.Canon.Build.Members.{occurrences, all_members, InRange}
use aimesh.Canon.Build.Clusters.{IsUnseen-nil}
use aimesh.Canon.Build.Gate.{IsPartition}
use aimesh.Canon.Dual.{
  Homes, unassigned, in_range, home_of, is_some, assign_clusters, settled, assignments,
}
use aimesh.Canon.Dual.Assigned.{taken}
use aimesh.Canon.Dual.Filled.{
  place_from, taken-le, IsInside, assign_clusters-AllSettled, assign_clusters_total,
}

length-unassigned : (noms : List Nomination) → length (unassigned noms) ≡ length noms
length-unassigned [] = refl
length-unassigned (n ∷ noms) = ap suc (length-unassigned noms)

home_of-unassigned : (noms : List Nomination) (i : ℕ) → home_of (unassigned noms) i ≡ none
home_of-unassigned [] i = refl
home_of-unassigned (n ∷ noms) zero = refl
home_of-unassigned (n ∷ noms) (suc i) = home_of-unassigned noms i

home_of-in_range : (out : Homes) (i : ℕ) → is_some (home_of out i) ≡ true → i < length out
home_of-in_range [] i h = cc
home_of-in_range (o ∷ out) zero h = omega arith
home_of-in_range (o ∷ out) (suc i) h = omega (arith, home_of-in_range out i h)

InRange_pos : (noms : List Nomination) (i : ℕ) → ltb i (length noms) ≡ true → InRange noms (pos i)
InRange_pos [] i h = ground arith
InRange_pos (n ∷ noms) zero h = (n, refl)
InRange_pos (n ∷ noms) (suc i) h = InRange_pos noms i (ground arith)

pos_InRange : (noms : List Nomination) (i : ℕ) → InRange noms (pos i) → ltb i (length noms) ≡ true
pos_InRange [] i (n, h) = cc
pos_InRange (m ∷ noms) zero r = ground arith
pos_InRange (m ∷ noms) (suc i) (n, h) = ground (arith, pos_InRange noms i (n, h))

inside : (noms : List Nomination) (m : ℤ) → in_range (length noms) m ≡ true → InRange noms m
inside noms (pos i) h = InRange_pos noms i h
inside noms (negsuc i) h = cc

ranged : (noms : List Nomination) (m : ℤ) → InRange noms m → in_range (length noms) m ≡ true
ranged noms (pos i) h = pos_InRange noms i h
ranged noms (negsuc i) (n, h) = cc

All-map :
    {A : Type 0} {P Q : A → Type 0} → ((a : A) → P a → Q a) → (xs : List A) → All P xs → All Q xs
All-map f [] h = tt
All-map f (x ∷ xs) h = (f x h.0, All-map f xs h.1)

settled-homes :
    (n : ℕ) (out : Homes) (xs : List ℕ)
    → settled n out ≡ ok xs
    → (length xs ≡ length out) × ((i : ℕ) → get_elem? xs i ≡ home_of out i)
unfolding settled
settled-homes n [] xs e =
    let same : [] ≡ xs = cc in
    subst (λ (ys : List ℕ). (length ys ≡ 0) × ((i : ℕ) → get_elem? ys i ≡ none)) same
      (refl, λ i. refl)
settled-homes n (none ∷ out) xs e = cc
settled-homes n (some x ∷ out) xs e =
    let (rest, run, last) = >>=-eq-ok (settled (suc n) out) _ e in
    let (size, homes) = settled-homes (suc n) out rest run in
    let same : x ∷ rest ≡ xs = cc in
    subst
      (λ (ys : List ℕ).
        (length ys ≡ suc (length out)) × ((i : ℕ) → get_elem? ys i ≡ home_of (some x ∷ out) i))
      same (ap suc size, at_each x rest out homes)
  where
    at_each :
        (y : ℕ) (ys : List ℕ) (hs : Homes)
        → ((i : ℕ) → get_elem? ys i ≡ home_of hs i)
        → (i : ℕ) → get_elem? (y ∷ ys) i ≡ home_of (some y ∷ hs) i
    at_each y ys hs h zero = refl
    at_each y ys hs h (suc i) = h i

settled_sound :
    (n : ℕ) (out : Homes) → IsOk (settled n out) → (i : ℕ) → i < length out → taken out i ≡ 1
unfolding settled
settled_sound n [] r i l = absurd (omega arith)
settled_sound n (none ∷ out) r i l = cc
settled_sound n (some x ∷ out) r zero l = refl
settled_sound n (some x ∷ out) r (suc i) l =
    let (rest, run, last) = >>=-eq-ok (settled (suc n) out) _ r.1 in
    settled_sound (suc n) out (rest, run) i (omega arith)

settled_total :
    (n : ℕ) (out : Homes) → ((i : ℕ) → i < length out → taken out i ≡ 1) → IsOk (settled n out)
unfolding settled
settled_total n [] h = ([], refl)
settled_total n (none ∷ out) h = absurd (omega (arith, h 0 (omega arith)))
settled_total n (some x ∷ out) h =
    let (rest, run) = settled_total (suc n) out (λ i l. h (suc i) (omega arith)) in
    (x ∷ rest, rw run refl)

-- What `assignments` found: an exact partition, and the cluster of each nomination.
pub record Assigned (noms : List Nomination) (cs : List ProposedCluster) (xs : List ℕ)
    : Type 0 where
  pub partition : IsPartition noms cs
  pub size : length xs ≡ length noms
  pub once : (i : ℕ) → occurrences (all_members cs) (pos i) ≤ 1
  pub places : (i : ℕ) → get_elem? xs i ≡ place_from 0 cs i

module _ (noms : List Nomination) (cs : List ProposedCluster) where
  pub assignments-Assigned : (xs : List ℕ) → assignments noms cs ≡ ok xs → Assigned noms cs xs
  unfolding assignments
  assignments-Assigned xs e =
      let (out, run, last) = >>=-eq-ok (assign_clusters 0 cs [] (unassigned noms)) _ e in
      let s = assign_clusters-AllSettled 0 cs [] (unassigned noms) out run in
      let (size, homes) = settled-homes 0 out xs last in
      let width : length out ≡ length noms = s.size ∙ length-unassigned noms in
      record {
        partition = record {
          named = s.named;
          distinct = s.distinct;
          backed = s.backed;
          in_range =
              All-map (inside noms) (all_members cs)
                (subst (λ n. IsInside n (all_members cs)) (length-unassigned noms) s.ranged);
          exactly_once = λ i l. ground (
            arith,
            s.once i,
            home_of-unassigned noms i,
            settled_sound 0 out (xs, last) i (omega (arith, width)),
          );
        };
        size = size ∙ width;
        once = λ i. omega (arith, s.once i, taken-le out i);
        places = λ i. ground (arith, homes i, s.homed i, home_of-unassigned noms i);
      }

  once_at_most : IsPartition noms cs → (i : ℕ) → occurrences (all_members cs) (pos i) ≤ 1
  once_at_most p i = elim (Bool-cases (ltb i (length noms))) [
    | inl h ↦ omega (arith, p.exactly_once i (ground (arith, h)))
    | inr h ↦ omega (arith, outside_none (all_members cs) p.in_range i h)
  ]
    where
      outside_none :
          (ms : List ℤ)
          → All (InRange noms) ms
          → (k : ℕ) → ltb k (length noms) ≡ false
          → occurrences ms (pos k) ≡ 0
      outside_none [] r k h = refl
      outside_none (pos m ∷ ms) r k h =
          ground (arith, outside_none ms r.1 k h, pos_InRange noms m r.0)
      outside_none (negsuc m ∷ ms) r k h = ground (arith, outside_none ms r.1 k h)

  assignments_total : IsPartition noms cs → IsOk (assignments noms cs)
  unfolding assignments
  assignments_total p =
      let (out, run) =
        assign_clusters_total 0 cs [] (unassigned noms) p.named (IsUnseen-nil cs) p.distinct
          p.backed
          (subst (λ n. IsInside n (all_members cs)) (sym (length-unassigned noms))
            (All-map (ranged noms) (all_members cs) p.in_range))
          (λ i. ground (arith, once_at_most p i, home_of-unassigned noms i)) in
      let s = assign_clusters-AllSettled 0 cs [] (unassigned noms) out run in
      let (xs, last) = settled_total 0 out (λ i l. ground (
        arith,
        s.once i,
        home_of-unassigned noms i,
        p.exactly_once i (omega (arith, s.size, length-unassigned noms)),
      )) in
      (xs, rw run last)

  -- The check of the agreement and the gate of the ledger accept the same partitions.
  pub assignments_iff : IsOk (assignments noms cs) ↔ IsPartition noms cs
  assignments_iff = (λ r. (assignments-Assigned r.0 r.1).partition, assignments_total)
