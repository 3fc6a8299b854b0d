-- ===== src/Canon/Dual/Grouped.antt =====
-- Two nominations of one cluster, in a proposal and in the classes that `intersect` groups.
use aimesh.Base.{
  ℕ, zero, suc, ◌+◌, ◌≤◌, ◌<◌, ◌≡◌, refl, Bool, true, false, ◌&&◌, ◌||◌, List, [], ◌∷◌, some, eqb,
  ltb, arith, if◌then◌else◌, get_elem?, ◌==◌,
}
use aimesh.Base.Groups.{count_of, count_pairs_under}
use aimesh.Base.Int.{ℤ, pos, ℤ_comparable}
use aimesh.Base.Sets.{contains}
use aimesh.Canon.Ledger.{ProposedCluster}
use aimesh.Canon.Build.Members.{occurrences, occurrences-append, all_members}
use aimesh.Canon.Dual.{Class, Class_comparable, classes_from, positions}
use aimesh.Canon.Dual.Housed.{}
use aimesh.Canon.Dual.Filled.{place_from}

-- Whether some cluster holds both nominations.
abbrev pub together : List ProposedCluster → ℕ → ℕ → Bool
together [] i j = false
together (c ∷ cs) i j = contains c.members (pos i) && contains c.members (pos j) || together cs i j

pub contains-occurrences : (ms : List ℤ) (k : ℤ) → contains ms k ≡ ltb 0 (occurrences ms k)
contains-occurrences [] k = refl
contains-occurrences (m ∷ ms) k = ground (arith, contains-occurrences ms k)

place_from-le : (k : ℕ) (cs : List ProposedCluster) (i x : ℕ) → place_from k cs i ≡ some x → k ≤ x
place_from-le k [] i x h = cc
place_from-le k (c ∷ cs) i x h = ground (arith, place_from-le (suc k) cs i x)

place_from-held :
    (k : ℕ) (cs : List ProposedCluster) (i x : ℕ)
    → place_from k cs i ≡ some x
    → 1 ≤ occurrences (all_members cs) (pos i)
place_from-held k [] i x h = cc
place_from-held k (c ∷ cs) i x h =
    ground
      (arith, place_from-held (suc k) cs i x, occurrences-append c.members (all_members cs) (pos i))

pub together-held :
    (cs : List ProposedCluster) (i j : ℕ)
    → together cs i j ≡ true
    → 1 ≤ occurrences (all_members cs) (pos i)
together-held [] i j h = cc
together-held (c ∷ cs) i j h = ground (
  arith,
  together-held cs i j,
  occurrences-append c.members (all_members cs) (pos i),
  contains-occurrences c.members (pos i),
)

pub together_comm : (cs : List ProposedCluster) (i j : ℕ) → together cs i j ≡ together cs j i
together_comm [] i j = refl
together_comm (c ∷ cs) i j = ground (arith, together_comm cs i j)

-- Where each nomination stands once, two are together exactly if they have one place.
pub together-place :
    (k : ℕ) (cs : List ProposedCluster) (i j x y : ℕ)
    → occurrences (all_members cs) (pos i) ≤ 1
    → occurrences (all_members cs) (pos j) ≤ 1
    → place_from k cs i ≡ some x
    → place_from k cs j ≡ some y
    → together cs i j ≡ eqb x y
together-place k [] i j x y a b p q = cc
together-place k (c ∷ cs) i j x y a b p q = ground (
  arith,
  together-place (suc k) cs i j x y,
  place_from-le (suc k) cs i x,
  place_from-le (suc k) cs j y,
  together-held cs i j,
  together_comm cs i j,
  together-held cs j i,
  occurrences-append c.members (all_members cs) (pos i),
  occurrences-append c.members (all_members cs) (pos j),
  contains-occurrences c.members (pos i),
  contains-occurrences c.members (pos j),
)

abbrev pub Groups : Type 0
Groups = List (Class × List ℕ)

pub occurrences-positions :
    (is : List ℕ) (x : ℕ) → occurrences (positions is) (pos x) ≡ count_of x is
occurrences-positions [] x = refl
occurrences-positions (i ∷ is) x = ground (arith, occurrences-positions is x)

pairs_before :
    (k : Class) (n i : ℕ) (xs ys : List ℕ)
    → i < n
    → count_pairs_under k i (classes_from n xs ys) ≡ 0
pairs_before k n i [] ys h = refl
pairs_before k n i (x ∷ xs) [] h = refl
pairs_before k n i (x ∷ xs) (y ∷ ys) h = ground (arith, pairs_before k (suc n) i xs ys)

abbrev pub class_of : ℕ → ℕ → Class
class_of x y = record { ai = x; bi = y }

-- Nomination `n + i` comes once, with its class.
pub pairs_at :
    (k : Class) (n i : ℕ) (xs ys : List ℕ) (x y : ℕ)
    → get_elem? xs i ≡ some x
    → get_elem? ys i ≡ some y
    → count_pairs_under k (n + i) (classes_from n xs ys) ≡ (if class_of x y == k then 1 else 0)
pairs_at k n i [] ys x y p q = cc
pairs_at k n i (a ∷ xs) [] x y p q = cc
pairs_at k n zero (a ∷ xs) (b ∷ ys) x y p q = ground (arith, pairs_before k (suc n) (n + 0) xs ys)
pairs_at k n (suc i) (a ∷ xs) (b ∷ ys) x y p q =
    let shift : n + suc i ≡ suc n + i = omega arith in
    ground (arith, pairs_at k (suc n) i xs ys x y p q)
