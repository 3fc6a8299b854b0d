-- ===== src/Canon/Dual/Meet.antt =====
-- The partition that `intersect` of dual.go returns.
use aimesh.Base.{
  ℕ, zero, suc, ◌+◌, ◌<◌, ◌≡◌, refl, sym, ◌∙◌, Bool, true, ◌&&◌, List, [], ◌∷◌, map, some, length,
  eqb, arith, if◌then◌else◌, get_elem?, ◌==◌,
}
use aimesh.Base.Groups.{
  count_in, count_pairs, count_under, group-IsUnique, count_in-group, count_under-group,
}
use aimesh.Base.Grouped.{grouped, grouped-keys}
use aimesh.Base.Int.{pos, ℤ_comparable}
use aimesh.Base.Outcome.{ok}
use aimesh.Canon.Ledger.{Nomination, ProposedCluster}
use aimesh.Canon.Build.Members.{occurrences, occurrences-append, all_members}
use aimesh.Canon.Dual.{
  Class, Class_comparable, classes_from, agreed_cluster, agreed_classes, positions, intersect,
  assignments,
}
use aimesh.Canon.Dual.Housed.{assignments-Assigned}
use aimesh.Canon.Dual.Grouped.{
  together, together-place, contains-occurrences, occurrences-positions, Groups, class_of, pairs_at,
}

get-some : (xs : List ℕ) (i : ℕ) → i < length xs → (x : ℕ) × (get_elem? xs i ≡ some x)
get-some [] i h = absurd (omega arith)
get-some (x ∷ xs) zero h = (x, refl)
get-some (x ∷ xs) (suc i) h = get-some xs i (omega arith)

-- One class for each nomination: its pair of clusters.
under-agreed :
    (xs ys : List ℕ) (k : Class) (i x y : ℕ)
    → get_elem? xs i ≡ some x
    → get_elem? ys i ≡ some y
    → count_under k i (agreed_classes xs ys) ≡ (if class_of x y == k then 1 else 0)
under-agreed xs ys k i x y p q =
    let start : 0 + i ≡ i = omega arith in
    ground (arith, count_under-group k i (classes_from 0 xs ys), pairs_at k 0 i xs ys x y p q)

abbrev all_classes : Class → Bool
all_classes k = true

grouped-agreed :
    (xs ys : List ℕ) (i j x y x' y' : ℕ)
    → get_elem? xs i ≡ some x
    → get_elem? ys i ≡ some y
    → get_elem? xs j ≡ some x'
    → get_elem? ys j ≡ some y'
    → grouped all_classes (agreed_classes xs ys) i j ≡ (eqb x x' && eqb y y')
grouped-agreed xs ys i j x y x' y' p q p' q' =
    grouped-keys all_classes (agreed_classes xs ys) i j (class_of x y) (class_of x' y') 1 1
      (group-IsUnique (classes_from 0 xs ys)) (λ k. under-agreed xs ys k i x y p q)
      (λ k. under-agreed xs ys k j x' y' p' q')
    ∙ ground arith

module _ (a b : List ProposedCluster) where
  together-clusters :
      (all gs : Groups) (i j : ℕ)
      → together (map (agreed_cluster a b all) gs) i j ≡ grouped all_classes gs i j
  unfolding agreed_cluster
  together-clusters all [] i j = refl
  together-clusters all (g ∷ gs) i j = ground (
    arith,
    together-clusters all gs i j,
    contains-occurrences (positions g.1) (pos i),
    contains-occurrences (positions g.1) (pos j),
    occurrences-positions g.1 i,
    occurrences-positions g.1 j,
  )

  -- Over two valid proposals, the agreed partition has two nominations together exactly if both
  -- proposals have them together.
  pub intersect-together :
      (noms : List Nomination) (xs ys : List ℕ) (i j : ℕ)
      → assignments noms a ≡ ok xs
      → assignments noms b ≡ ok ys
      → i < length noms
      → j < length noms
      → together (intersect a b xs ys) i j ≡ (together a i j && together b i j)
  unfolding intersect
  intersect-together noms xs ys i j ea eb li lj =
      let ha = assignments-Assigned noms a xs ea in
      let hb = assignments-Assigned noms b ys eb in
      let (x, p) = get-some xs i (omega (arith, ha.size)) in
      let (x', p') = get-some xs j (omega (arith, ha.size)) in
      let (y, q) = get-some ys i (omega (arith, hb.size)) in
      let (y', q') = get-some ys j (omega (arith, hb.size)) in
      let in_a =
        together-place 0 a i j x x' (ha.once i) (ha.once j) (sym (ha.places i) ∙ p)
          (sym (ha.places j) ∙ p') in
      let in_b =
        together-place 0 b i j y y' (hb.once i) (hb.once j) (sym (hb.places i) ∙ q)
          (sym (hb.places j) ∙ q') in
      rw (in_a, in_b)
        (together-clusters (agreed_classes xs ys) (agreed_classes xs ys) i j
          ∙ grouped-agreed xs ys i j x y x' y' p q p' q')

  occurrences-clusters :
      (all gs : Groups) (i : ℕ)
      → occurrences (all_members (map (agreed_cluster a b all) gs)) (pos i) ≡ count_in i gs
  unfolding agreed_cluster
  occurrences-clusters all [] i = refl
  occurrences-clusters all (g ∷ gs) i = omega (
    arith,
    occurrences-clusters all gs i,
    occurrences-positions g.1 i,
    occurrences-append (positions g.1) (all_members (map (agreed_cluster a b all) gs)) (pos i),
  )

  counted_before : (n i : ℕ) (xs ys : List ℕ) → i < n → count_pairs i (classes_from n xs ys) ≡ 0
  counted_before n i [] ys h = refl
  counted_before n i (x ∷ xs) [] h = refl
  counted_before n i (x ∷ xs) (y ∷ ys) h = ground (arith, counted_before (suc n) i xs ys)

  counted_at :
      (n i : ℕ) (xs ys : List ℕ)
      → i < length xs
      → i < length ys
      → count_pairs (n + i) (classes_from n xs ys) ≡ 1
  counted_at n i [] ys h k = absurd (omega arith)
  counted_at n i (x ∷ xs) [] h k = absurd (omega arith)
  counted_at n zero (x ∷ xs) (y ∷ ys) h k = ground (arith, counted_before (suc n) (n + 0) xs ys)
  counted_at n (suc i) (x ∷ xs) (y ∷ ys) h k =
      let shift : n + suc i ≡ suc n + i = omega arith in ground (arith, counted_at (suc n) i xs ys)

  -- The agreed partition holds each nomination once.
  pub intersect_once :
      (noms : List Nomination) (xs ys : List ℕ) (i : ℕ)
      → assignments noms a ≡ ok xs
      → assignments noms b ≡ ok ys
      → i < length noms
      → occurrences (all_members (intersect a b xs ys)) (pos i) ≡ 1
  unfolding intersect
  intersect_once noms xs ys i ea eb l =
      let ha = assignments-Assigned noms a xs ea in
      let hb = assignments-Assigned noms b ys eb in
      let start : 0 + i ≡ i = omega arith in
      ground (
        arith,
        occurrences-clusters (agreed_classes xs ys) (agreed_classes xs ys) i,
        count_in-group i (classes_from 0 xs ys),
        counted_at 0 i xs ys (omega (arith, ha.size)) (omega (arith, hb.size)),
      )
