-- ===== src/Base/Groups.antt =====
-- Grouping in order of first appearance: Go's idiom of a map from a key to a slice beside the slice
-- `order` of the keys, which lists them as they were first seen.
use aimesh.Base.Tests.{Comparable, ◌==◌, if◌then◌else◌, eqb}
use aimesh.Base.Lists.{is_empty, All}
use aimesh.Base.Sets.{contains, IsUnique}
use Prim.Native.Nat.{ℕ, ◌+◌}
use mathlib.Core.Path.{◌≡◌, refl}
use mathlib.Core.Bool.{false, ◌||◌, ◌&&◌}
use mathlib.Core.List.{List, [], ◌∷◌, ◌++◌, map}
use native.Mathlib.Omega.{arith}

-- How often a number occurs.
abbrev pub count_of : ℕ → List ℕ → ℕ
count_of x [] = 0
count_of x (y ∷ ys) = (if eqb y x then 1 else 0) + count_of x ys

pub count_of-append :
    (x : ℕ) (ys zs : List ℕ) → count_of x (ys ++ zs) ≡ count_of x ys + count_of x zs
count_of-append x [] zs = omega arith
count_of-append x (y ∷ ys) zs = omega (arith, count_of-append x ys zs)

module _ {K : Type 0} ⦃c : Comparable K⦄ where
  -- `if !seen { order = append(order, k) }; members[k] = append(members[k], i)`
  unfoldable pub add_to : K → ℕ → List (K × List ℕ) → List (K × List ℕ)
  add_to k i [] = (k, i ∷ []) ∷ []
  add_to k i ((j, is) ∷ gs) =
      let rest = add_to k i gs in if j == k then (j, is ++ (i ∷ [])) ∷ gs else (j, is) ∷ rest

  unfoldable pub group_onto : List (K × ℕ) → List (K × List ℕ) → List (K × List ℕ)
  unfolding add_to
  group_onto [] gs = gs
  group_onto ((k, i) ∷ ps) gs = group_onto ps (add_to k i gs)

  unfoldable pub group : List (K × ℕ) → List (K × List ℕ)
  unfolding group_onto
  group ps = group_onto ps []

  abbrev pub keys : List (K × List ℕ) → List K
  keys = map λ g. g.0

  -- How often a number occurs in the groups together.
  abbrev pub count_in : ℕ → List (K × List ℕ) → ℕ
  count_in x [] = 0
  count_in x (g ∷ gs) = count_of x g.1 + count_in x gs

  abbrev pub count_pairs : ℕ → List (K × ℕ) → ℕ
  count_pairs x [] = 0
  count_pairs x (p ∷ ps) = (if eqb p.1 x then 1 else 0) + count_pairs x ps

  -- How often a number occurs under one key.
  abbrev pub count_under : K → ℕ → List (K × List ℕ) → ℕ
  count_under k x [] = 0
  count_under k x (g ∷ gs) = (if g.0 == k then count_of x g.1 else 0) + count_under k x gs

  abbrev pub count_pairs_under : K → ℕ → List (K × ℕ) → ℕ
  count_pairs_under k x [] = 0
  count_pairs_under k x (p ∷ ps) =
      (if p.0 == k && eqb p.1 x then 1 else 0) + count_pairs_under k x ps

  contains-add_to :
      (k j : K) (i : ℕ) (gs : List (K × List ℕ))
      → contains (keys (add_to k i gs)) j ≡ (contains (keys gs) j || k == j)
  unfolding add_to
  contains-add_to k j i [] = ground arith
  contains-add_to k j i ((l, is) ∷ gs) =
      ground (arith, contains-add_to k j i gs, c.same_iff l k, c.same_iff l j, c.same_iff k j)

  add_to-IsUnique :
      (k : K) (i : ℕ) (gs : List (K × List ℕ))
      → IsUnique (keys gs)
      → IsUnique (keys (add_to k i gs))
  unfolding add_to
  add_to-IsUnique k i [] u = (refl, tt)
  add_to-IsUnique k i ((l, is) ∷ gs) u =
      ground (
        arith,
        add_to-IsUnique k i gs u.1,
        contains-add_to k l i gs,
        c.same_iff l k,
        c.same_iff k l,
      )

  count_in-add_to :
      (k : K) (i x : ℕ) (gs : List (K × List ℕ))
      → count_in x (add_to k i gs) ≡ (if eqb i x then 1 else 0) + count_in x gs
  unfolding add_to
  count_in-add_to k i x [] = omega arith
  count_in-add_to k i x ((l, is) ∷ gs) =
      ground (arith, count_in-add_to k i x gs, count_of-append x is (i ∷ []))

  count_under-add_to :
      (k j : K) (i x : ℕ) (gs : List (K × List ℕ))
      → count_under j x (add_to k i gs) ≡ (if k == j && eqb i x then 1 else 0) + count_under j x gs
  unfolding add_to
  count_under-add_to k j i x [] = ground arith
  count_under-add_to k j i x ((l, is) ∷ gs) = ground (
    arith,
    count_under-add_to k j i x gs,
    count_of-append x is (i ∷ []),
    c.same_iff l k,
    c.same_iff l j,
    c.same_iff k j,
  )

  abbrev pub AllFilled : List (K × List ℕ) → Type 0
  AllFilled gs = All (λ g. is_empty g.1 ≡ false) gs

  add_to-AllFilled :
      (k : K) (i : ℕ) (gs : List (K × List ℕ)) → AllFilled gs → AllFilled (add_to k i gs)
  unfolding add_to
  add_to-AllFilled k i [] h = (refl, tt)
  add_to-AllFilled k i ((l, []) ∷ gs) h = cc
  add_to-AllFilled k i ((l, x ∷ is) ∷ gs) h = ground (arith, add_to-AllFilled k i gs h.1)

  group_onto-IsUnique :
      (ps : List (K × ℕ)) (gs : List (K × List ℕ))
      → IsUnique (keys gs)
      → IsUnique (keys (group_onto ps gs))
  unfolding group_onto
  group_onto-IsUnique [] gs u = u
  group_onto-IsUnique ((k, i) ∷ ps) gs u =
      group_onto-IsUnique ps (add_to k i gs) (add_to-IsUnique k i gs u)

  group_onto-AllFilled :
      (ps : List (K × ℕ)) (gs : List (K × List ℕ)) → AllFilled gs → AllFilled (group_onto ps gs)
  unfolding group_onto
  group_onto-AllFilled [] gs h = h
  group_onto-AllFilled ((k, i) ∷ ps) gs h =
      group_onto-AllFilled ps (add_to k i gs) (add_to-AllFilled k i gs h)

  count_in-group_onto :
      (x : ℕ) (ps : List (K × ℕ)) (gs : List (K × List ℕ))
      → count_in x (group_onto ps gs) ≡ count_pairs x ps + count_in x gs
  unfolding group_onto
  count_in-group_onto x [] gs = omega arith
  count_in-group_onto x ((k, i) ∷ ps) gs =
      omega (arith, count_in-group_onto x ps (add_to k i gs), count_in-add_to k i x gs)

  count_under-group_onto :
      (j : K) (x : ℕ) (ps : List (K × ℕ)) (gs : List (K × List ℕ))
      → count_under j x (group_onto ps gs) ≡ count_pairs_under j x ps + count_under j x gs
  unfolding group_onto
  count_under-group_onto j x [] gs = omega arith
  count_under-group_onto j x ((k, i) ∷ ps) gs =
      omega (arith, count_under-group_onto j x ps (add_to k i gs), count_under-add_to k j i x gs)

  -- Each key heads one group.
  pub group-IsUnique : (ps : List (K × ℕ)) → IsUnique (keys (group ps))
  unfolding group
  group-IsUnique ps = group_onto-IsUnique ps [] tt

  pub group-AllFilled : (ps : List (K × ℕ)) → AllFilled (group ps)
  unfolding group
  group-AllFilled ps = group_onto-AllFilled ps [] tt

  -- The groups hold what was grouped, each as often.
  pub count_in-group : (x : ℕ) (ps : List (K × ℕ)) → count_in x (group ps) ≡ count_pairs x ps
  unfolding group
  count_in-group x ps = omega (arith, count_in-group_onto x ps [])

  -- Under a key stands exactly what came with it.
  pub count_under-group :
      (k : K) (x : ℕ) (ps : List (K × ℕ)) → count_under k x (group ps) ≡ count_pairs_under k x ps
  unfolding group
  count_under-group k x ps = omega (arith, count_under-group_onto k x ps [])
