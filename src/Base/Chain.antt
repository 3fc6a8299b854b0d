-- ===== src/Base/Chain.antt =====
-- Hash chains: a head that each new entry extends. Two histories with one head are the same, or the
-- digest collided, or it gave the seed of the chain.
use Prim.Native.String.{String}
use mathlib.Core.Path.{◌≡◌, refl, sym, ap, ap₂, ◌∙◌}
use mathlib.Core.Logic.{◌⊎◌, inl, inr, ◌≢◌}
use mathlib.Core.List.{List, [], ◌∷◌, ◌++◌, reverse, reverse-cons, reverse-reverse}
use aimesh.Base.Tests.{◌==◌, String_comparable, Bool-cases}

pub String_discrete : Discrete String
String_discrete s t = elim (Bool-cases (s == t)) [
  | inl h ↦ yes ((String_comparable.same_iff s t).0 h)
  | inr h ↦ no (λ e. cc ((String_comparable.same_iff s t).1 e))
]

module _ {ℓ} {A : Type ℓ} (digest : String → A → String) where
  -- The head after some entries.
  abbrev pub chain : String → List A → String
  chain head [] = head
  chain head (a ∷ xs) = chain (digest head a) xs

  -- The same with the newest entry first.
  abbrev chain_back : String → List A → String
  chain_back seed [] = seed
  chain_back seed (a ∷ xs) = digest (chain_back seed xs) a

  pub chain-append :
      (head : String) (xs ys : List A) → chain head (xs ++ ys) ≡ chain (chain head xs) ys
  chain-append head [] ys = refl
  chain-append head (a ∷ xs) ys = chain-append (digest head a) xs ys

  -- Two different inputs with one digest.
  abbrev pub Collision : Type ℓ
  Collision =
      (g : String) × (h : String) × (a : A) × (b : A) × (digest g a ≡ digest h b)
      × ((g ≢ h) ⊎ (a ≢ b))

  -- An input whose digest is the seed.
  abbrev pub Returns : String → Type ℓ
  Returns seed = (h : String) × (a : A) × (digest h a ≡ seed)

  chain_back-append :
      (seed : String) (xs : List A) (a : A)
      → chain_back seed (xs ++ (a ∷ [])) ≡ chain_back (digest seed a) xs
  chain_back-append seed [] a = refl
  chain_back-append seed (x ∷ xs) a = ap (λ h. digest h x) (chain_back-append seed xs a)

  chain_back-reverse : (seed : String) (xs : List A) → chain_back seed (reverse xs) ≡ chain seed xs
  chain_back-reverse seed [] = refl
  chain_back-reverse seed (x ∷ xs) =
      rw (reverse-cons x xs)
        (chain_back-append seed (reverse xs) x ∙ chain_back-reverse (digest seed x) xs)

  chain_back_pins :
      Discrete A
      → (seed : String) (xs ys : List A) → chain_back seed xs ≡ chain_back seed ys
      → (xs ≡ ys) ⊎ (Collision ⊎ Returns seed)
  chain_back_pins disc seed [] [] e = inl refl
  chain_back_pins disc seed [] (b ∷ ys) e = inr (inr (chain_back seed ys, b, sym e))
  chain_back_pins disc seed (a ∷ xs) [] e = inr (inr (chain_back seed xs, a, e))
  chain_back_pins disc seed (a ∷ xs) (b ∷ ys) e =
      elim (String_discrete (chain_back seed xs) (chain_back seed ys)) [
        | no p ↦ inr (inl (_, _, a, b, e, inl p))
        | yes p ↦ elim (disc a b) [
          | no q ↦ inr (inl (_, _, a, b, e, inr q))
          | yes q ↦ elim (chain_back_pins disc seed xs ys p) [
            | inl r ↦ inl (ap₂ ◌∷◌ q r)
            | inr r ↦ inr r
          ]
        ]
      ]

  pub chain_pins :
      Discrete A
      → (seed : String) (xs ys : List A) → chain seed xs ≡ chain seed ys
      → (xs ≡ ys) ⊎ (Collision ⊎ Returns seed)
  chain_pins disc seed xs ys e =
      elim (chain_back_pins disc seed (reverse xs) (reverse ys)
        (chain_back-reverse seed xs ∙ e ∙ sym (chain_back-reverse seed ys))) [
          | inl r ↦ inl (sym (reverse-reverse xs) ∙ ap reverse r ∙ reverse-reverse ys)
          | inr r ↦ inr r
        ]
