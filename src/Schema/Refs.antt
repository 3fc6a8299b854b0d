-- ===== src/Schema/Refs.antt =====
-- References of envelopes never collide: what `EnvelopeRef` of types.go promises.
use Prim.Native.Char.{code}
use aimesh.Base.{
  ℕ, ◌≤◌, String, ◌≡◌, sym, ap, ◌∙◌, ◌⊎◌, inl, inr, Bool-cases, true, false, leb, arith,
}
use aimesh.Base.Number.{
  decimal, ◌<>◌, decimal_cancel, decimal-injective, append_text-cancel, EndsNumber-colon,
}
use aimesh.Schema.{envelope_ref}

first_code : String → ℕ
first_code String.[] = 0
first_code (String.◌∷◌ c s) = code c

ref_first : (q i : ℕ) → leb q 1 ≡ true → envelope_ref q i ≡ "envelope#" <> decimal i
unfolding envelope_ref
ref_first q i h = rw h

ref_later :
    (q i : ℕ)
    → leb q 1 ≡ false
    → envelope_ref q i ≡ "r" <> (decimal q <> (":envelope#" <> decimal i))
unfolding envelope_ref
ref_later q i h = rw h

first_not_later :
    (q r i j : ℕ) → leb q 1 ≡ true → leb r 1 ≡ false → envelope_ref q i ≡ envelope_ref r j → ⊥
unfolding first_code ◌<>◌
first_not_later q r i j a b e =
    omega (arith, ap first_code (sym (ref_first q i a) ∙ e ∙ ref_later r j b))

later_same :
    (q r i j : ℕ)
    → decimal q <> (":envelope#" <> decimal i) ≡ decimal r <> (":envelope#" <> decimal j)
    → (q ≡ r) × (i ≡ j)
later_same q r i j e =
    let (number, rest) =
      decimal_cancel q r (":envelope#" <> decimal i) (":envelope#" <> decimal j)
        (EndsNumber-colon (decimal i)) (EndsNumber-colon (decimal j)) e in
    (number, decimal-injective i j (append_text-cancel ":envelope#" _ _ rest))

-- The references of two envelopes are the same only if both belong to the same round, where every
-- round number up to 1 stands for round 1, and have the same place in the panel.
pub envelope_ref-injective :
    (q r i j : ℕ) → envelope_ref q i ≡ envelope_ref r j → (((q ≤ 1) × (r ≤ 1)) ⊎ (q ≡ r)) × (i ≡ j)
envelope_ref-injective q r i j e = split (Bool-cases (leb q 1)) (Bool-cases (leb r 1))
  where
    split :
        (leb q 1 ≡ true) ⊎ (leb q 1 ≡ false)
        → (leb r 1 ≡ true) ⊎ (leb r 1 ≡ false)
        → (((q ≤ 1) × (r ≤ 1)) ⊎ (q ≡ r)) × (i ≡ j)
    split (inl a) (inl b) = (
      inl (ground arith, ground arith),
      decimal-injective i j
          (append_text-cancel "envelope#" _ _ (sym (ref_first q i a) ∙ e ∙ ref_first r j b)),
    )
    split (inl a) (inr b) = absurd (first_not_later q r i j a b e)
    split (inr a) (inl b) = absurd (first_not_later r q j i b a (sym e))
    split (inr a) (inr b) =
        let (number, place) =
          later_same q r i j
            (append_text-cancel "r" _ _ (sym (ref_later q i a) ∙ e ∙ ref_later r j b)) in
        (inr number, place)
