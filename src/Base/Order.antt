-- ===== src/Base/Order.antt =====
-- `sort.SliceStable` and `sort.Strings`: a stable sort has one result, which insertion gives.
use Prim.Native.String.{String}
use mathlib.Core.Path.{◌≡◌, refl, ap, ◌∙◌}
use mathlib.Core.Bool.{Bool, true, false, ◌||◌}
use mathlib.Core.List.{List, [], ◌∷◌, Perm}
use mathlib.Core.List.Perm
use native.Mathlib.Omega.{arith}
use aimesh.Base.Tests.{if◌then◌else◌, Bool-cases, Comparable, ◌==◌}
use aimesh.Base.Tests.{String_comparable}
use aimesh.Base.Sets.{contains}
use aimesh.Base.Lists.{All, length}
use Prim.Native.Nat.{suc}
use aimesh.Base.Text.{text_lt}
use mathlib.Core.Logic.{inl, inr}

-- A strict order in which "neither is less" may hold of different values.
pub record IsWeakOrder {ℓ} {A : Type ℓ} (less : A → A → Bool) : Type ℓ where
  pub asym : (a b : A) → less a b ≡ true → less b a ≡ false
  pub chain : (a b c : A) → less b a ≡ false → less c b ≡ false → less c a ≡ false

module _ {ℓ} {A : Type ℓ} (less : A → A → Bool) where
  unfoldable pub insert_by : A → List A → List A
  insert_by x [] = x ∷ []
  insert_by x (y ∷ ys) = let rest = insert_by x ys in if less y x then y ∷ rest else x ∷ y ∷ ys

  unfoldable pub sort_by : List A → List A
  unfolding insert_by
  sort_by [] = []
  sort_by (x ∷ xs) = insert_by x (sort_by xs)

  -- No entry is less than one before it.
  abbrev pub IsSortedBy : List A → Type 0
  IsSortedBy [] = Unit
  IsSortedBy (x ∷ xs) = All (λ y. less y x ≡ false) xs × IsSortedBy xs

module _ {ℓ} {A : Type ℓ} (less : A → A → Bool) where
  insert_by-perm : (x : A) (ys : List A) → Perm (insert_by less x ys) (x ∷ ys)
  unfolding insert_by
  insert_by-perm x [] = Perm.refl (x ∷ [])
  insert_by-perm x (y ∷ ys) = elim (Bool-cases (less y x)) [
    | inl h ↦ rw h (Perm.trans (Perm.cons y (insert_by-perm x ys)) (Perm.swap x y ys))
    | inr h ↦ rw h (Perm.refl (x ∷ y ∷ ys))
  ]

  pub sort_by-perm : (xs : List A) → Perm (sort_by less xs) xs
  unfolding sort_by
  sort_by-perm [] = Perm.refl []
  sort_by-perm (x ∷ xs) =
      Perm.trans (insert_by-perm x (sort_by less xs)) (Perm.cons x (sort_by-perm xs))

module _ {ℓ κ} {A : Type ℓ} (P : A → Type κ) (less : A → A → Bool) where
  insert_by-keeps : (x : A) (ys : List A) → P x → All P ys → All P (insert_by less x ys)
  unfolding insert_by
  insert_by-keeps x [] h a = (h, tt)
  insert_by-keeps x (y ∷ ys) h a = elim (Bool-cases (less y x)) [
    | inl e ↦ rw e (a.0, insert_by-keeps x ys h a.1)
    | inr e ↦ rw e (h, a)
  ]

  -- What holds of every entry of a list holds of every entry of the sorted list.
  pub sort_by-keeps : (xs : List A) → All P xs → All P (sort_by less xs)
  unfolding sort_by
  sort_by-keeps [] a = tt
  sort_by-keeps (x ∷ xs) a = insert_by-keeps x (sort_by less xs) a.0 (sort_by-keeps xs a.1)

module _ {ℓ} {A : Type ℓ} (less : A → A → Bool) where
  length-insert_by : (x : A) (ys : List A) → length (insert_by less x ys) ≡ suc (length ys)
  unfolding insert_by
  length-insert_by x [] = refl
  length-insert_by x (y ∷ ys) = ground (arith, length-insert_by x ys)

  pub length-sort_by : (xs : List A) → length (sort_by less xs) ≡ length xs
  unfolding sort_by
  length-sort_by [] = refl
  length-sort_by (x ∷ xs) = length-insert_by x (sort_by less xs) ∙ ap suc (length-sort_by xs)

module _ {ℓ} {A : Type ℓ} (less : A → A → Bool) (w : IsWeakOrder less) where
  insert_by-All :
      (z x : A) (ys : List A)
      → less x z ≡ false
      → All (λ y. less y z ≡ false) ys
      → All (λ y. less y z ≡ false) (insert_by less x ys)
  unfolding insert_by
  insert_by-All z x [] h a = (h, tt)
  insert_by-All z x (y ∷ ys) h a = ground (arith, insert_by-All z x ys h a.1)

  above-All :
      (x y : A) (ys : List A)
      → less y x ≡ false
      → All (λ z. less z y ≡ false) ys
      → All (λ z. less z x ≡ false) ys
  above-All x y [] h a = tt
  above-All x y (z ∷ ys) h a = (w.chain x y z h a.0, above-All x y ys h a.1)

  insert_by-IsSortedBy :
      (x : A) (ys : List A) → IsSortedBy less ys → IsSortedBy less (insert_by less x ys)
  unfolding insert_by
  insert_by-IsSortedBy x [] s = (tt, tt)
  insert_by-IsSortedBy x (y ∷ ys) s = elim (Bool-cases (less y x)) [
    | inl h ↦ rw h (insert_by-All y x ys (w.asym y x h) s.0, insert_by-IsSortedBy x ys s.1)
    | inr h ↦ rw h ((h, above-All x y ys h s.0), s)
  ]

  pub sort_by-IsSortedBy : (xs : List A) → IsSortedBy less (sort_by less xs)
  unfolding sort_by
  sort_by-IsSortedBy [] = tt
  sort_by-IsSortedBy (x ∷ xs) = insert_by-IsSortedBy x (sort_by less xs) (sort_by-IsSortedBy xs)

module _ {ℓ} {A : Type ℓ} ⦃c : Comparable A⦄ (less : A → A → Bool) where
  contains-insert_by :
      (x a : A) (ys : List A) → contains (insert_by less x ys) a ≡ (x == a || contains ys a)
  unfolding insert_by
  contains-insert_by x a [] = refl
  contains-insert_by x a (y ∷ ys) = ground (arith, contains-insert_by x a ys)

  -- Sorting keeps what is in a list.
  pub contains-sort_by : (xs : List A) (a : A) → contains (sort_by less xs) a ≡ contains xs a
  unfolding sort_by
  contains-sort_by [] a = refl
  contains-sort_by (x ∷ xs) a =
      ground (arith, contains-insert_by x a (sort_by less xs), contains-sort_by xs a)

-- `sort.Strings`
unfoldable pub sort_texts : List String → List String
unfolding sort_by text_lt
sort_texts = sort_by text_lt

pub contains-sort_texts :
    (xs : List String) (a : String) → contains (sort_texts xs) a ≡ contains xs a
unfolding sort_texts
contains-sort_texts xs a = contains-sort_by text_lt xs a
