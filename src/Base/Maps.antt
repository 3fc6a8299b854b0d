-- ===== src/Base/Maps.antt =====
-- Go maps as association lists without repeated keys.
use mathlib.Core.Path.{◌≡◌, refl}
use mathlib.Core.Bool.{Bool, false, ◌||◌}
use mathlib.Core.Option.{Option, none, some}
use mathlib.Core.List.{List, [], ◌∷◌}
use native.Mathlib.Omega.{arith}
use aimesh.Base.Tests.{Comparable, ◌==◌, if◌then◌else◌}

module _ {ℓ κ} {K : Type ℓ} {V : Type κ} ⦃c : Comparable K⦄ where
  -- `m[k] = v`
  unfoldable pub put : K → V → List (K × V) → List (K × V)
  put k v [] = (k, v) ∷ []
  put k v ((i, w) ∷ m) = let rest = put k v m in if i == k then (k, v) ∷ m else (i, w) ∷ rest

  -- `v, ok := m[k]`
  unfoldable pub lookup : K → List (K × V) → Option V
  lookup k [] = none
  lookup k ((i, w) ∷ m) = if i == k then some w else lookup k m

  -- `_, ok := m[k]`
  unfoldable pub has_key : K → List (K × V) → Bool
  has_key k [] = false
  has_key k ((i, w) ∷ m) = i == k || has_key k m

  pub lookup-put :
      (k i : K) (v : V) (m : List (K × V))
      → lookup i (put k v m) ≡ (if k == i then some v else lookup i m)
  unfolding put lookup
  lookup-put k i v [] = refl
  lookup-put k i v ((h, w) ∷ m) =
      ground (arith, lookup-put k i v m, c.same_iff h k, c.same_iff h i, c.same_iff k i)

  pub has_key-put :
      (k i : K) (v : V) (m : List (K × V)) → has_key i (put k v m) ≡ (k == i || has_key i m)
  unfolding put has_key
  has_key-put k i v [] = refl
  has_key-put k i v ((h, w) ∷ m) =
      ground (arith, has_key-put k i v m, c.same_iff h k, c.same_iff h i, c.same_iff k i)

  -- `delete(m, k)`
  unfoldable pub remove : K → List (K × V) → List (K × V)
  remove k [] = []
  remove k ((i, w) ∷ m) = let rest = remove k m in if i == k then rest else (i, w) ∷ rest

  pub lookup-remove :
      (k i : K) (m : List (K × V)) → lookup i (remove k m) ≡ (if k == i then none else lookup i m)
  unfolding remove lookup
  lookup-remove k i [] = ground arith
  lookup-remove k i ((h, w) ∷ m) =
      ground (arith, lookup-remove k i m, c.same_iff h k, c.same_iff h i, c.same_iff k i)
