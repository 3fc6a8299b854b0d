-- ===== src/Canon/Splits/Partition.antt =====
-- The partition that `applySplits` of confirm.go returns.
use aimesh.Base.{
  ℕ, zero, suc, ◌+◌, ◌<◌, ◌≡◌, refl, ◌∙◌, String, Bool, true, Bool-cases, not, ◌&&◌, ◌||◌, List, [],
  ◌∷◌, ◌++◌, map, some, inl, inr, length, eqb, ltb, arith, if◌then◌else◌, get_elem?, ◌==◌,
  String_comparable,
}
use aimesh.Base.Groups.{
  count_of, count_in, count_pairs, count_under, count_pairs_under, group-IsUnique, count_in-group,
  count_under-group,
}
use aimesh.Base.Grouped.{grouped, grouped-keys}
use aimesh.Base.Int.{pos, ℤ_comparable}
use aimesh.Base.Sets.{contains}
use aimesh.Canon.Ledger.{Nomination, ProposedCluster}
use aimesh.Canon.View.{Result}
use aimesh.Canon.Dual.{positions}
use aimesh.Canon.Dual.Grouped.{together, contains-occurrences, occurrences-positions}
use aimesh.Canon.Splits.{
  numbered, raw_at, by_raw, split_parts, is_unsplittable, split_entity, entities, split_all,
  apply_splits,
}

together-append :
    (cs ds : List ProposedCluster) (i j : ℕ)
    → together (cs ++ ds) i j ≡ (together cs i j || together ds i j)
together-append [] ds i j = refl
together-append (c ∷ cs) ds i j = ground (arith, together-append cs ds i j)

abbrev every : String → Bool
every k = true

-- Whether a list holds both numbers.
abbrev both_in : List ℕ → ℕ → ℕ → Bool
both_in is i j = ltb 0 (count_of i is) && ltb 0 (count_of j is)

both_in-positions :
    (is : List ℕ) (i j : ℕ)
    → (contains (positions is) (pos i) && contains (positions is) (pos j)) ≡ both_in is i j
both_in-positions is i j = ground (
  arith,
  contains-occurrences (positions is) (pos i),
  contains-occurrences (positions is) (pos j),
  occurrences-positions is i,
  occurrences-positions is j,
)

together-split_parts :
    (id : String) (k : ℕ) (ps : List (String × List ℕ)) (i j : ℕ)
    → together (split_parts id k ps) i j ≡ grouped every ps i j
unfolding split_parts
together-split_parts id k [] i j = refl
together-split_parts id k (p ∷ ps) i j =
    ground (arith, together-split_parts id (suc k) ps i j, both_in-positions p.1 i j)

-- The pairs of a raw text are the indices that have it.
raw_pairs :
    (noms : List Nomination) (k : String) (i : ℕ) (is : List ℕ)
    → count_pairs_under k i (map (λ n. (raw_at noms n, n)) is)
      ≡ (if raw_at noms i == k then count_of i is else 0)
raw_pairs noms k i [] = ground arith
raw_pairs noms k i (n ∷ is) = elim (Bool-cases (eqb n i)) [
  | inl e ↦ let same : n ≡ i = ground (arith, e) in rw same (ground (arith, raw_pairs noms k i is))
  | inr e ↦ ground (arith, raw_pairs noms k i is)
]

grouped-by_raw :
    (noms : List Nomination) (is : List ℕ) (i j : ℕ)
    → grouped every (by_raw noms is) i j
      ≡ (both_in is i j && (raw_at noms i == raw_at noms j && true))
grouped-by_raw noms is i j =
    let pairs = map (λ n. (raw_at noms n, n)) is in
    grouped-keys every (by_raw noms is) i j (raw_at noms i) (raw_at noms j) (count_of i is)
      (count_of j is) (group-IsUnique pairs)
      (λ k. count_under-group k i pairs ∙ raw_pairs noms k i is)
      (λ k. count_under-group k j pairs ∙ raw_pairs noms k j is)

count_pairs-raw :
    (noms : List Nomination) (i : ℕ) (is : List ℕ)
    → count_pairs i (map (λ n. (raw_at noms n, n)) is) ≡ count_of i is
count_pairs-raw noms i [] = refl
count_pairs-raw noms i (n ∷ is) = omega (arith, count_pairs-raw noms i is)

count_in-by_raw :
    (noms : List Nomination) (is : List ℕ) (i : ℕ) → count_in i (by_raw noms is) ≡ count_of i is
count_in-by_raw noms is i =
    count_in-group i (map (λ n. (raw_at noms n, n)) is) ∙ count_pairs-raw noms i is

grouped-few :
    (ps : List (String × List ℕ)) (i j : ℕ)
    → ltb (length ps) 2 ≡ true
    → grouped every ps i j ≡ (ltb 0 (count_in i ps) && ltb 0 (count_in j ps))
grouped-few [] i j h = ground arith
grouped-few (p ∷ []) i j h = ground arith
grouped-few (p ∷ q ∷ ps) i j h = absurd (ground arith)

module _ (prov : Result) (targets : List String) where
  -- Two nominations of an entity stay together unless it is a target and their texts differ.
  abbrev pub stays : ℕ → ℕ → String → Bool
  stays i j k = not (contains targets k) || raw_at prov.nominations i == raw_at prov.nominations j

  together-split_entity :
      (g : String × List ℕ) (i j : ℕ)
      → together (split_entity prov targets g) i j ≡ (stays i j g.0 && both_in g.1 i j)
  unfolding split_entity
  together-split_entity g i j = elim (Bool-cases (contains targets g.0)) [
    | inr e ↦ rw e (ground (arith, both_in-positions g.1 i j))
    | inl e ↦ elim (Bool-cases (is_unsplittable prov g.1)) [
      | inl h ↦
          rw (e, h)
            (ground (
              arith,
              both_in-positions g.1 i j,
              grouped-by_raw prov.nominations g.1 i j,
              grouped-few (by_raw prov.nominations g.1) i j h,
              count_in-by_raw prov.nominations g.1 i,
              count_in-by_raw prov.nominations g.1 j,
            ))
      | inr h ↦
          rw (e, h)
            (ground (
              arith,
              together-split_parts g.0 0 (by_raw prov.nominations g.1) i j,
              grouped-by_raw prov.nominations g.1 i j,
            ))
    ]
  ]

  together-split_all :
      (gs : List (String × List ℕ)) (i j : ℕ)
      → together (split_all prov targets gs) i j ≡ grouped (stays i j) gs i j
  unfolding split_all
  together-split_all [] i j = refl
  together-split_all (g ∷ gs) i j =
      together-append (split_entity prov targets g) (split_all prov targets gs) i j
      ∙ rw (together-split_entity g i j, together-split_all gs i j) refl

numbered_before :
    (k : String) (n i : ℕ) (ids : List String) → i < n → count_pairs_under k i (numbered n ids) ≡ 0
numbered_before k n i [] h = refl
numbered_before k n i (a ∷ ids) h = ground (arith, numbered_before k (suc n) i ids)

numbered_at :
    (k : String) (n i : ℕ) (ids : List String) (a : String)
    → get_elem? ids i ≡ some a
    → count_pairs_under k (n + i) (numbered n ids) ≡ (if a == k then 1 else 0)
numbered_at k n i [] a h = cc
numbered_at k n zero (b ∷ ids) a h =
    let same : b ≡ a = cc in rw same (ground (arith, numbered_before k (suc n) (n + 0) ids))
numbered_at k n (suc i) (b ∷ ids) a h =
    let shift : n + suc i ≡ suc n + i = omega arith in
    ground (arith, numbered_at k (suc n) i ids a h)

entity_at :
    (assign : List String) (k : String) (i : ℕ) (a : String)
    → get_elem? assign i ≡ some a
    → count_under k i (entities assign) ≡ (if a == k then 1 else 0)
entity_at assign k i a h =
    let start : 0 + i ≡ i = omega arith in
    ground (arith, count_under-group k i (numbered 0 assign), numbered_at k 0 i assign a h)

-- After the splits, two nominations are together exactly if one entity held both, and it is no target or
-- their texts are the same.
pub apply_splits-together :
    (prov : Result) (assign targets : List String) (i j : ℕ) (a b : String)
    → get_elem? assign i ≡ some a
    → get_elem? assign j ≡ some b
    → together (apply_splits prov assign targets) i j ≡ (
        a == b
        && (not (contains targets a) || raw_at prov.nominations i == raw_at prov.nominations j))
unfolding apply_splits
apply_splits-together prov assign targets i j a b p q =
    together-split_all prov targets (entities assign) i j
    ∙ grouped-keys (stays prov targets i j) (entities assign) i j a b 1 1
        (group-IsUnique (numbered 0 assign)) (λ k. entity_at assign k i a p)
        (λ k. entity_at assign k j b q)
