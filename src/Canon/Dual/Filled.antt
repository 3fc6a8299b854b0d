-- ===== src/Canon/Dual/Filled.antt =====
-- The loop of `assignments` over the clusters, and the cluster that it finds for each nomination.
use mathlib.Core.Path.{subst}
use aimesh.Base.{
  ℕ, suc, ◌+◌, ◌≤◌, ◌≡◌, refl, sym, ◌∙◌, String, true, false, List, [], ◌∷◌, map, Option, none,
  some, length, eqb, is_empty, All, All-split, All-append, arith, if◌then◌else◌, String_comparable,
}
use aimesh.Base.Int.{ℤ, pos}
use aimesh.Base.Outcome.{ok, IsOk, refuse, >>=-eq-ok}
use aimesh.Base.Sets.{contains, insert, IsUnique}
use aimesh.Base.Text.{is_blank}
use aimesh.Canon.Ledger.{ProposedCluster}
use aimesh.Canon.Build.Members.{occurrences, occurrences-append, all_members}
use aimesh.Canon.Build.Clusters.{key, IsUnseen, IsUnseen-insert, insert-IsUnseen}
use aimesh.Canon.Dual.{Homes, in_range, home_of, assign_members, assign_clusters}
use aimesh.Canon.Dual.Assigned.{taken, Settled, assign_members-Settled, assign_members_total}

-- The index of the first cluster, from number `k` on, that holds a nomination.
abbrev pub place_from : ℕ → List ProposedCluster → ℕ → Option ℕ
place_from k [] i = none
place_from k (c ∷ cs) i =
    let rest = place_from (suc k) cs i in
    if eqb (occurrences c.members (pos i)) 0 then rest else some k

abbrev pub or_else : Option ℕ → Option ℕ → Option ℕ
or_else none h = h
or_else (some x) h = some x

place_from-none :
    (k : ℕ) (cs : List ProposedCluster) (i : ℕ)
    → occurrences (all_members cs) (pos i) ≡ 0
    → place_from k cs i ≡ none
place_from-none k [] i h = refl
place_from-none k (c ∷ cs) i h =
    ground
      (arith, place_from-none (suc k) cs i, occurrences-append c.members (all_members cs) (pos i))

pub taken-le : (out : Homes) (i : ℕ) → taken out i ≤ 1
taken-le out i = ground arith

abbrev pub IsInside : ℕ → List ℤ → Type 0
IsInside n ms = All (λ m. in_range n m ≡ true) ms

-- From `out` to `out'`, the clusters from number `k` on were settled.
pub record AllSettled (k : ℕ) (cs : List ProposedCluster) (seen : List String) (out out' : Homes)
    : Type 0 where
  pub named : All (λ c. is_blank c.canonical_id ≡ false) cs
  pub unseen : IsUnseen seen cs
  pub distinct : IsUnique (map key cs)
  pub backed : All (λ c. is_empty c.members ≡ false) cs
  pub size : length out' ≡ length out
  pub ranged : IsInside (length out) (all_members cs)
  pub once : (i : ℕ) → occurrences (all_members cs) (pos i) + taken out i ≡ taken out' i
  pub homed : (i : ℕ) → home_of out' i ≡ or_else (place_from k cs i) (home_of out i)

assign_clusters_cases :
    (k : ℕ) (c : ProposedCluster) (cs : List ProposedCluster) (seen : List String)
    (out out' : Homes)
    → assign_clusters k (c ∷ cs) seen out ≡ ok out'
    → (is_blank c.canonical_id ≡ false)
      × (contains seen (key c) ≡ false)
      × (is_empty c.members ≡ false)
      × (mid : Homes) × (assign_members (key c) k c.members out ≡ ok mid)
      × (assign_clusters (suc k) cs (insert (key c) seen) mid ≡ ok out')
unfolding assign_clusters
assign_clusters_cases k c cs seen out out' e =
    let (_, h1, e1) = >>=-eq-ok (refuse (is_blank c.canonical_id) _) _ e in
    let (_, h2, e2) = >>=-eq-ok (refuse (contains seen (key c)) _) _ e1 in
    let (_, h3, e3) = >>=-eq-ok (refuse (is_empty c.members) _) _ e2 in
    let (mid, run, e4) = >>=-eq-ok (assign_members (key c) k c.members out) _ e3 in
    (ground (arith, h1), ground (arith, h2), ground (arith, h3), mid, run, e4)

homed_more :
    (k : ℕ) (c : ProposedCluster) (cs : List ProposedCluster) (i : ℕ) (out mid out' : Homes)
    → Settled k c.members out mid
    → occurrences (all_members cs) (pos i) + taken mid i ≡ taken out' i
    → home_of out' i ≡ or_else (place_from (suc k) cs i) (home_of mid i)
    → home_of out' i ≡ or_else (place_from k (c ∷ cs) i) (home_of out i)
homed_more k c cs i out mid out' s once homed =
    ground (arith, s.once i, s.homed i, place_from-none (suc k) cs i, taken-le out' i)

pub assign_clusters-AllSettled :
    (k : ℕ) (cs : List ProposedCluster) (seen : List String) (out out' : Homes)
    → assign_clusters k cs seen out ≡ ok out'
    → AllSettled k cs seen out out'
unfolding assign_clusters
assign_clusters-AllSettled k [] seen out out' e =
    let same : out ≡ out' = cc in
    subst (λ (x : Homes). AllSettled k [] seen out x) same
      (record {
        named = tt;
        unseen = tt;
        distinct = tt;
        backed = tt;
        size = refl;
        ranged = tt;
        once = λ i. omega arith;
        homed = λ i. refl;
      })
assign_clusters-AllSettled k (c ∷ cs) seen out out' e =
    let (named, unseen, backed, mid, run, rest) = assign_clusters_cases k c cs seen out out' e in
    let here = assign_members-Settled (key c) k c.members out mid run in
    let later = assign_clusters-AllSettled (suc k) cs (insert (key c) seen) mid out' rest in
    let (others, fresh) = IsUnseen-insert (key c) seen cs later.unseen in
    record {
      named = (named, later.named);
      unseen = (unseen, others);
      distinct = (fresh, later.distinct);
      backed = (backed, later.backed);
      size = later.size ∙ here.size;
      ranged =
          All-append _ c.members (all_members cs) here.ranged
            (subst (λ n. IsInside n (all_members cs)) here.size later.ranged);
      once = λ i.
          omega (
            arith,
            occurrences-append c.members (all_members cs) (pos i),
            here.once i,
            later.once i,
          );
      homed = λ i. homed_more k c cs i out mid out' here (later.once i) (later.homed i);
    }

assign_clusters_step :
    (k : ℕ) (c : ProposedCluster) (cs : List ProposedCluster) (seen : List String) (out mid : Homes)
    → is_blank c.canonical_id ≡ false
    → contains seen (key c) ≡ false
    → is_empty c.members ≡ false
    → assign_members (key c) k c.members out ≡ ok mid
    → assign_clusters k (c ∷ cs) seen out ≡ assign_clusters (suc k) cs (insert (key c) seen) mid
unfolding assign_clusters
assign_clusters_step k c cs seen out mid named unseen backed run =
    rw (named, unseen, backed, run) refl

pub assign_clusters_total :
    (k : ℕ) (cs : List ProposedCluster) (seen : List String) (out : Homes)
    → All (λ c. is_blank c.canonical_id ≡ false) cs
    → IsUnseen seen cs
    → IsUnique (map key cs)
    → All (λ c. is_empty c.members ≡ false) cs
    → IsInside (length out) (all_members cs)
    → ((i : ℕ) → occurrences (all_members cs) (pos i) + taken out i ≤ 1)
    → IsOk (assign_clusters k cs seen out)
unfolding assign_clusters
assign_clusters_total k [] seen out named unseen distinct backed range once = (out, refl)
assign_clusters_total k (c ∷ cs) seen out named unseen distinct backed range once =
    let (here, later) = All-split _ c.members (all_members cs) range in
    let (mid, run) =
      assign_members_total (key c) k c.members out here
        (λ i. omega (arith, once i, occurrences-append c.members (all_members cs) (pos i))) in
    let s = assign_members-Settled (key c) k c.members out mid run in
    let rest =
      assign_clusters_total (suc k) cs (insert (key c) seen) mid named.1
        (insert-IsUnseen (key c) seen cs unseen.1 distinct.0) distinct.1 backed.1
        (subst (λ n. IsInside n (all_members cs)) (sym s.size) later)
        (λ i.
          omega (arith, s.once i, once i, occurrences-append c.members (all_members cs) (pos i))) in
    rw (assign_clusters_step k c cs seen out mid named.0 unseen.0 backed.0 run) rest
