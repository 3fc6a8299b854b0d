-- ===== src/Base/Sets.antt =====
-- Go maps used as sets: the keys, each once. Go gives the keys in no order, and the code only takes
-- the length, tests membership or sorts.
use Prim.Native.Nat.{ℕ, ◌≤◌, ◌<◌}
use mathlib.Core.Path.{◌≡◌, refl, sym, ◌∙◌}
use mathlib.Core.Logic.{inl, inr}
use mathlib.Core.Bool.{Bool, true, false, not, ◌||◌}
use mathlib.Core.List.{List, [], ◌∷◌, ◌++◌}
use native.Mathlib.Omega.{arith}
use aimesh.Base.Tests.{Comparable, ◌==◌, if◌then◌else◌, Bool-cases, same_refl}
use aimesh.Base.Lists.{length, keep, is_empty}

module _ {ℓ} {A : Type ℓ} ⦃c : Comparable A⦄ where
  -- `slices.Contains`, and a lookup in a set.
  abbrev pub contains : List A → A → Bool
  contains [] a = false
  contains (x ∷ xs) a = x == a || contains xs a

  -- `m[a] = true`
  abbrev pub insert : A → List A → List A
  insert a m = if contains m a then m else a ∷ m

  -- The set of the keys that are assigned, whatever the order of the assignments.
  abbrev pub key_set : List A → List A
  key_set [] = []
  key_set (x ∷ xs) = insert x (key_set xs)

  -- `len` of that set.
  abbrev pub distinct_count : List A → ℕ
  distinct_count xs = length (key_set xs)

  -- No key twice.
  abbrev pub IsUnique : List A → Type 0
  IsUnique [] = Unit
  IsUnique (x ∷ xs) = (contains xs x ≡ false) × IsUnique xs

  abbrev without : A → List A → List A
  without a xs = keep (λ x. not (x == a)) xs

  pub contains-insert : (a b : A) (m : List A) → contains (insert a m) b ≡ (a == b || contains m b)
  contains-insert a b m = ground (arith, c.same_iff a b)

  pub contains-key_set : (xs : List A) (a : A) → contains (key_set xs) a ≡ contains xs a
  contains-key_set [] a = refl
  contains-key_set (x ∷ xs) a =
      ground (arith, contains-insert x a (key_set xs), contains-key_set xs a)

  pub key_set-IsUnique : (xs : List A) → IsUnique (key_set xs)
  key_set-IsUnique [] = tt
  key_set-IsUnique (x ∷ xs) = ground (arith, key_set-IsUnique xs)

  pub contains-nonempty : (xs : List A) (a : A) → contains xs a ≡ true → is_empty xs ≡ false
  contains-nonempty [] a h = cc
  contains-nonempty (x ∷ xs) a h = refl

  pub contains-append :
      (xs ys : List A) (a : A) → contains (xs ++ ys) a ≡ (contains xs a || contains ys a)
  contains-append [] ys a = refl
  contains-append (x ∷ xs) ys a = ground (arith, contains-append xs ys a)

  length-without : (a : A) (xs : List A) → length (without a xs) ≤ length xs
  length-without a [] = omega arith
  length-without a (x ∷ xs) = ground (arith, length-without a xs)

  length-without-lt :
      (a : A) (xs : List A) → contains xs a ≡ true → length (without a xs) < length xs
  length-without-lt a [] h = cc
  length-without-lt a (x ∷ xs) h = ground (arith, length-without-lt a xs, length-without a xs)

  contains-without :
      (a b : A) (xs : List A) → (a == b) ≡ false → contains (without a xs) b ≡ contains xs b
  contains-without a b [] h = refl
  contains-without a b (x ∷ xs) h =
      ground (arith, contains-without a b xs h, c.same_iff x a, c.same_iff x b, c.same_iff a b)

  -- A list without repetitions is no longer than any list that has all its keys.
  pub length-IsUnique-le :
      (xs ys : List A)
      → IsUnique xs
      → ((a : A) → contains xs a ≡ true → contains ys a ≡ true)
      → length xs ≤ length ys
  length-IsUnique-le [] ys u sub = omega arith
  length-IsUnique-le (x ∷ xs) ys u sub = omega (
    arith,
    length-IsUnique-le xs (without x ys) u.1 rest,
    length-without-lt x ys (sub x (rw same_refl refl)),
  )
    where
      rest : (a : A) → contains xs a ≡ true → contains (without x ys) a ≡ true
      rest a h = elim (Bool-cases (x == a)) [
        | inl e ↦ cc (u.0, h, (c.same_iff x a).0 e)
        | inr e ↦ rw (contains-without x a ys e) (sub a (ground arith))
      ]

  pub distinct_count-le : (xs : List A) → distinct_count xs ≤ length xs
  distinct_count-le [] = omega arith
  distinct_count-le (x ∷ xs) = ground (arith, distinct_count-le xs)

  -- More keys make no smaller set.
  pub distinct_count_mono :
      (xs ys : List A)
      → ((a : A) → contains xs a ≡ true → contains ys a ≡ true)
      → distinct_count xs ≤ distinct_count ys
  distinct_count_mono xs ys sub =
      length-IsUnique-le (key_set xs) (key_set ys) (key_set-IsUnique xs)
        (λ a h. rw contains-key_set (sub a (sym (contains-key_set xs a) ∙ h)))
