-- ===== src/Govern/Frontier/Undominated.antt =====
-- The options on the frontier of `paretoFrontier` (fixedspace.go).
use mathlib.Core.Path.{subst, ap₂}
use aimesh.Base.{
  ℕ, zero, suc, ◌≤◌, ◌<◌, ◌≡◌, ◌↔◌, refl, sym, ap, ◌∙◌, String, Bool, true, false, Bool-cases, ◌&&◌,
  List, [], ◌∷◌, map, keep, length, is_empty, inl, inr, ◌⊎◌, arith, ◌==◌, String_comparable,
}
use aimesh.Base.Order.{IsWeakOrder}
use aimesh.Base.Sets.{contains}
use aimesh.Govern.Frontier.{
  CompareCriterion, ParetoEntry, dominates, is_above, split_frontier, pareto_frontier,
}
use aimesh.Govern.Frontier.Dominance.{dominates_irrefl, dominates_chain}

contains-keep :
    (p : String → Bool) (xs : List String) (a : String)
    → contains (keep p xs) a ≡ (contains xs a && p a)
contains-keep p [] a = refl
contains-keep p (x ∷ xs) a = elim (Bool-cases (x == a)) [
  | inl e ↦
      let same : x ≡ a = (String_comparable.same_iff x a).0 e in
      rw same (ground (arith, contains-keep p xs a, (String_comparable.same_iff a a).1 refl))
  | inr e ↦ ground (arith, contains-keep p xs a, e)
]

keep-some :
    (p : String → Bool) (xs : List String)
    → is_empty (keep p xs) ≡ false
    → (x : String) × (contains xs x ≡ true) × (p x ≡ true)
keep-some p [] h = cc
keep-some p (x ∷ xs) h = elim (Bool-cases (p x)) [
  | inl e ↦ (x, ground (arith, (String_comparable.same_iff x x).1 refl), e)
  | inr e ↦
      let (y, among, passes) = keep-some p xs (ground (arith, h)) in
      (y, ground (arith, among), passes)
]

keep-none :
    (p : String → Bool) (xs : List String) (x : String)
    → is_empty (keep p xs) ≡ true
    → contains xs x ≡ true
    → p x ≡ false
keep-none p [] x h k = cc
keep-none p (y ∷ xs) x h k = elim (Bool-cases (y == x)) [
  | inl e ↦
      let same : y ≡ x = (String_comparable.same_iff y x).0 e in
      subst (λ z. p z ≡ false) same (ground (arith, h))
  | inr e ↦ keep-none p xs x (ground (arith, h)) (ground (arith, k))
]

length-keep_mono :
    (p q : String → Bool) (xs : List String)
    → ((x : String) → p x ≡ true → q x ≡ true)
    → length (keep p xs) ≤ length (keep q xs)
length-keep_mono p q [] h = omega arith
length-keep_mono p q (x ∷ xs) h = ground (arith, length-keep_mono p q xs h, h x)

length-keep-lt :
    (p q : String → Bool) (xs : List String) (y : String)
    → ((x : String) → p x ≡ true → q x ≡ true)
    → contains xs y ≡ true
    → p y ≡ false
    → q y ≡ true
    → length (keep p xs) < length (keep q xs)
length-keep-lt p q [] y h among fails passes = cc
length-keep-lt p q (x ∷ xs) y h among fails passes = elim (Bool-cases (x == y)) [
  | inl e ↦
      let same : y ≡ x = sym ((String_comparable.same_iff x y).0 e) in
      let fails_x : p x ≡ false = subst (λ z. p z ≡ false) same fails in
      let passes_x : q x ≡ true = subst (λ z. q z ≡ true) same passes in
      ground (arith, length-keep_mono p q xs h)
  | inr e ↦ ground (arith, length-keep-lt p q xs y h (ground (arith, among)) fails passes, h x)
]

module _ {S : Type 0} (less : S → S → Bool) (order : IsWeakOrder less)
    (dims : List (CompareCriterion S)) (points : String → String → S)
    (split : String → String → Bool) (options : List String) where
  abbrev above : String → String → Bool
  above = is_above less dims points split

  -- The options that the frontier names.
  abbrev pub frontier : List String
  frontier =
      map (λ (e : ParetoEntry S). e.option) (pareto_frontier less dims points split options).0

  undominated_part :
      (rest : List String)
      → map (λ (e : ParetoEntry S). e.option) (split_frontier less dims points split options rest).0
        ≡ keep (λ o. is_empty (keep (above o) options)) rest
  unfolding split_frontier
  undominated_part [] = refl
  undominated_part (o ∷ rest) = elim (Bool-cases (is_empty (keep (above o) options))) [
    | inl e ↦ rw e (ap (λ os. o ∷ os) (undominated_part rest))
    | inr e ↦ rw e (undominated_part rest)
  ]

  on_frontier :
      (o : String) → contains frontier o ≡ (contains options o && is_empty (keep (above o) options))
  unfolding pareto_frontier
  on_frontier o =
      ap (λ os. contains os o) (undominated_part options)
      ∙ contains-keep (λ x. is_empty (keep (above x) options)) options o

  fewer_above :
      (o y : String)
      → contains options y ≡ true
      → above o y ≡ true
      → length (keep (above y) options) < length (keep (above o) options)
  fewer_above o y among h =
      let dominating : dominates less dims points split y o ≡ true = ground (arith, h) in
      length-keep-lt (above y) (above o) options y
        (λ x k.
          let over_y : dominates less dims points split x y ≡ true = ground (arith, k) in
          let over_o = dominates_chain less order dims points split x y o over_y dominating in
          elim (Bool-cases (x == o)) [
            | inl e ↦
                let same : x ≡ o = (String_comparable.same_iff x o).0 e in
                cc (
                  ap (λ z. dominates less dims points split z o) same,
                  over_o,
                  dominates_irrefl less order dims points split o,
                )
            | inr e ↦ ground (arith, e, over_o)
          ])
        among (ground (arith, (String_comparable.same_iff y y).1 refl)) h

  -- On the frontier, or below something on it.
  abbrev pub IsCovered : String → Type 0
  IsCovered o =
      (contains frontier o ≡ true)
      ⊎ ((top : String) × (contains frontier top ≡ true)
          × (dominates less dims points split top o ≡ true))

  on_top :
      (o : String)
      → contains options o ≡ true
      → is_empty (keep (above o) options) ≡ true
      → IsCovered o
  on_top o among e = inl (on_frontier o ∙ ap₂ ◌&&◌ among e)

  -- What covers a dominator covers what it dominates.
  IsCovered-below :
      (o y : String) → dominates less dims points split y o ≡ true → IsCovered y → IsCovered o
  IsCovered-below o y h (inl on) = inr (y, on, h)
  IsCovered-below o y h (inr (top, on, over)) =
      inr (top, on, dominates_chain less order dims points split top y o over h)

  covers_from :
      (n : ℕ) (o : String)
      → length (keep (above o) options) ≤ n
      → contains options o ≡ true
      → IsCovered o
  covers_from zero o bound among = elim (Bool-cases (is_empty (keep (above o) options))) [
    | inl e ↦ on_top o among e
    | inr e ↦
        let (y, among_y, over) = keep-some (above o) options e in
        absurd (omega (arith, fewer_above o y among_y over))
  ]
  covers_from (suc n) o bound among = elim (Bool-cases (is_empty (keep (above o) options))) [
    | inl e ↦ on_top o among e
    | inr e ↦
        let (y, among_y, over) = keep-some (above o) options e in
        IsCovered-below o y (ground (arith, over))
          (covers_from n y (omega (arith, fewer_above o y among_y over)) among_y)
  ]

  -- Every option is on the frontier or dominated by an option that is.
  pub pareto_frontier_covers : (o : String) → contains options o ≡ true → IsCovered o
  pareto_frontier_covers o = covers_from (length (keep (above o) options)) o (omega arith)

  -- On the frontier are exactly the options that no option dominates.
  pub pareto_frontier_iff :
      (o : String)
      → (contains frontier o ≡ true) ↔ (
          (contains options o ≡ true)
          × ((x : String)
              → contains options x ≡ true
              → dominates less dims points split x o ≡ false))
  pareto_frontier_iff o = (forth, back)
    where
      forth :
          contains frontier o ≡ true
          → (contains options o ≡ true)
            × ((x : String)
                → contains options x ≡ true
                → dominates less dims points split x o ≡ false)
      forth h = (
        ground (arith, sym (on_frontier o) ∙ h),
        λ x among. elim (Bool-cases (x == o)) [
          | inl e ↦
              ap (λ z. dominates less dims points split z o) ((String_comparable.same_iff x o).0 e)
              ∙ dominates_irrefl less order dims points split o
          | inr e ↦ ground (
            arith,
            e,
            keep-none (above o) options x (ground (arith, sym (on_frontier o) ∙ h)) among,
          )
        ],
      )

      back :
          (contains options o ≡ true)
            × ((x : String)
                → contains options x ≡ true
                → dominates less dims points split x o ≡ false)
          → contains frontier o ≡ true
      back (among, free) = elim (Bool-cases (is_empty (keep (above o) options))) [
        | inl e ↦ on_frontier o ∙ ap₂ ◌&&◌ among e
        | inr e ↦
            let (y, among_y, over) = keep-some (above o) options e in
            absurd (ground (arith, over, free y among_y))
      ]
