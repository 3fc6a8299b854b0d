-- ===== src/Base/Grouped.antt =====
-- Two numbers in one group, where the groups have distinct keys.
use aimesh.Base.Tests.{Comparable, ◌==◌, if◌then◌else◌, ltb, Bool-cases}
use aimesh.Base.Sets.{contains, IsUnique}
use aimesh.Base.Groups.{count_of, count_under, keys}
use Prim.Native.Nat.{ℕ, ◌≤◌}
use mathlib.Core.Path.{◌≡◌, refl, sym, ◌∙◌, subst}
use mathlib.Core.Logic.{inl, inr}
use mathlib.Core.Bool.{Bool, true, false, ◌||◌, ◌&&◌}
use mathlib.Core.List.{List, [], ◌∷◌}
use native.Mathlib.Omega.{arith}

module _ {K : Type 0} ⦃c : Comparable K⦄ (f : K → Bool) where
  -- Whether one group, with a key that passes a test, holds both numbers.
  abbrev pub grouped : List (K × List ℕ) → ℕ → ℕ → Bool
  grouped [] i j = false
  grouped (g ∷ gs) i j =
      f g.0 && (ltb 0 (count_of i g.1) && ltb 0 (count_of j g.1)) || grouped gs i j

  under-absent :
      (k : K) (x : ℕ) (gs : List (K × List ℕ))
      → contains (keys gs) k ≡ false
      → count_under k x gs ≡ 0
  under-absent k x [] h = refl
  under-absent k x (g ∷ gs) h = ground (arith, under-absent k x gs)

  under-grouped :
      (k : K) (i j : ℕ) (gs : List (K × List ℕ))
      → IsUnique (keys gs)
      → f k ≡ true
      → 1 ≤ count_under k i gs
      → 1 ≤ count_under k j gs
      → grouped gs i j ≡ true
  under-grouped k i j [] u t a b = absurd (omega arith)
  under-grouped k i j (g ∷ gs) u t a b = elim (Bool-cases (g.0 == k)) [
    | inl e ↦
        let same : g.0 ≡ k = (c.same_iff g.0 k).0 e in
        let absent : contains (keys gs) k ≡ false =
          subst (λ (x : K). contains (keys gs) x ≡ false) same u.0 in
        let passes : f g.0 ≡ true = subst (λ (x : K). f x ≡ true) (sym same) t in
        ground (arith, under-absent k i gs absent, under-absent k j gs absent)
    | inr e ↦ ground (arith, under-grouped k i j gs u.1)
  ]

  grouped-under :
      (i j : ℕ) (gs : List (K × List ℕ))
      → grouped gs i j ≡ true
      → (k : K) × (f k ≡ true) × (1 ≤ count_under k i gs) × (1 ≤ count_under k j gs)
  grouped-under i j [] h = cc
  grouped-under i j (g ∷ gs) h =
      elim (Bool-cases (f g.0 && (ltb 0 (count_of i g.1) && ltb 0 (count_of j g.1)))) [
        | inl e ↦ (
          g.0,
          ground (arith, e),
          ground (arith, (c.same_iff g.0 g.0).1 refl),
          ground (arith, (c.same_iff g.0 g.0).1 refl),
        )
        | inr e ↦
            let (k, t, a, b) = grouped-under i j gs (ground arith) in
            (k, t, omega (arith, a), omega (arith, b))
      ]

  -- Where each number stands under one key only, two are in one group exactly if they have one key.
  pub grouped-keys :
      (gs : List (K × List ℕ)) (i j : ℕ) (a b : K) (m n : ℕ)
      → IsUnique (keys gs)
      → ((k : K) → count_under k i gs ≡ (if a == k then m else 0))
      → ((k : K) → count_under k j gs ≡ (if b == k then n else 0))
      → grouped gs i j ≡ ((ltb 0 m && ltb 0 n) && (a == b && f a))
  grouped-keys gs i j a b m n u p q = elim (Bool-cases ((ltb 0 m && ltb 0 n) && (a == b && f a))) [
    | inl e ↦
        let one : 1 ≤ count_under a i gs = ground (arith, p a, c.same_iff a a) in
        let two : 1 ≤ count_under a j gs = ground (arith, q a, c.same_iff b a, c.same_iff a b) in
        rw (under-grouped a i j gs u (ground (arith, e)) one two) (sym e)
    | inr e ↦ elim (Bool-cases (grouped gs i j)) [
      | inl g ↦
          let (k, t, x, y) = grouped-under i j gs g in
          let first : a ≡ k = (c.same_iff a k).0 (ground (arith, p k)) in
          let other : b ≡ k = (c.same_iff b k).0 (ground (arith, q k)) in
          let alike : (a == b) ≡ true = (c.same_iff a b).1 (first ∙ sym other) in
          let passes : f a ≡ true = subst (λ (x : K). f x ≡ true) (sym first) t in
          let some_i : 1 ≤ m = ground (arith, p k) in
          let some_j : 1 ≤ n = ground (arith, q k) in absurd (ground arith)
      | inr g ↦ g ∙ sym e
    ]
  ]
