-- ===== src/Govern/Corroborate/Looped.antt =====
-- Where the loop of `sensitivity` takes the bound.
use mathlib.Core.Path.{subst}
use aimesh.Base.{
  ℕ, ◌≤◌, ◌≡◌, refl, sym, ◌∙◌, String, true, false, Bool-cases, inl, inr, List, [], ◌∷◌, ◌++◌,
  is_empty, is_empty-append_left, is_empty-append_right, All, arith, String_comparable,
}
use aimesh.Base.Sets.{contains-nonempty}
use aimesh.Canon.Contested.{
  ContestedMapping, AlternativeEntity, ContestedDirection, alternative_joins, alternative_separates,
  affects,
}
use aimesh.Govern.Baseline.{BlindBaseline}
use aimesh.Govern.Corroborate.{
  Ranging, count_baseline_sources, alternative_step, alternative_bound, widened, range_over,
}

abbrev pub IsTowards : ContestedDirection → String → ContestedMapping → Type 0
IsTowards d id m = affects m id ≡ true → m.direction ≡ d

module _ (b : BlindBaseline) where
  -- Every entity of a mapping counts at most `n`.
  abbrev pub Below : ℕ → List AlternativeEntity → Type 0
  Below n aes = All (λ ae. count_baseline_sources b ae ≤ n) aes

  abbrev pub Above : ℕ → List AlternativeEntity → Type 0
  Above n aes = All (λ ae. n ≤ count_baseline_sources b ae) aes

  Below-mono : (m n : ℕ) (aes : List AlternativeEntity) → m ≤ n → Below m aes → Below n aes
  Below-mono m n [] h a = tt
  Below-mono m n (ae ∷ aes) h a = (omega (arith, a.0), Below-mono m n aes h a.1)

  Above-mono : (m n : ℕ) (aes : List AlternativeEntity) → n ≤ m → Above m aes → Above n aes
  Above-mono m n [] h a = tt
  Above-mono m n (ae ∷ aes) h a = (omega (arith, a.0), Above-mono m n aes h a.1)

module _ (b : BlindBaseline) (m : ContestedMapping) where
  alternative_bound-joins :
      (aes : List AlternativeEntity) (alt : ℕ)
      → m.direction ≡ alternative_joins
      → (alt ≤ alternative_bound b m aes alt) × Below b (alternative_bound b m aes alt) aes
  unfolding alternative_bound
  alternative_bound-joins [] alt d = (omega arith, tt)
  alternative_bound-joins (ae ∷ aes) alt d =
      let c = count_baseline_sources b ae in
      let (grows, below) = alternative_bound-joins aes (alternative_step m.direction c alt) d in
      (ground arith, (ground arith, below))

  alternative_bound-separates :
      (aes : List AlternativeEntity) (alt : ℕ)
      → m.direction ≡ alternative_separates
      → (alternative_bound b m aes alt ≤ alt) × Above b (alternative_bound b m aes alt) aes
  unfolding alternative_bound
  alternative_bound-separates [] alt d = (omega arith, tt)
  alternative_bound-separates (ae ∷ aes) alt d =
      let c = count_baseline_sources b ae in
      let (falls, above) = alternative_bound-separates aes (alternative_step m.direction c alt) d in
      (ground arith, (ground arith, above))

module _ (b : BlindBaseline) (id : String) where
  -- The entities of every mapping that affects `id`, all below or all above `n`.
  abbrev pub AllBelow : ℕ → List ContestedMapping → Type 0
  AllBelow n ms = All (λ m. affects m id ≡ true → Below b n m.alternative_entities) ms

  abbrev pub AllAbove : ℕ → List ContestedMapping → Type 0
  AllAbove n ms = All (λ m. affects m id ≡ true → Above b n m.alternative_entities) ms

  pub range_over-hit :
      (m : ContestedMapping) (ms : List ContestedMapping) (r : Ranging)
      → affects m id ≡ true
      → range_over b id (m ∷ ms) r ≡ range_over b id ms (widened b m r)
  unfolding range_over
  range_over-hit m ms r h = rw h

  range_over-miss :
      (m : ContestedMapping) (ms : List ContestedMapping) (r : Ranging)
      → affects m id ≡ false
      → range_over b id (m ∷ ms) r ≡ range_over b id ms r
  unfolding range_over
  range_over-miss m ms r h = rw h

  pub range_over-nil : (r : Ranging) → range_over b id [] r ≡ r
  unfolding range_over
  range_over-nil r = refl

  pub range_over-append :
      (ms ns : List ContestedMapping) (r : Ranging)
      → range_over b id (ms ++ ns) r ≡ range_over b id ns (range_over b id ms r)
  unfolding range_over
  range_over-append [] ns r = refl
  range_over-append (m ∷ ms) ns r = range_over-append ms ns _

  pub range_over-joins :
      (ms : List ContestedMapping) (r : Ranging)
      → All (IsTowards alternative_joins id) ms
      → (r.alt ≤ (range_over b id ms r).alt) × AllBelow (range_over b id ms r).alt ms
  range_over-joins [] r h = rw range_over-nil (omega arith, tt)
  range_over-joins (m ∷ ms) r h = elim (Bool-cases (affects m id)) [
    | inl hit ↦
        let (first, below) = alternative_bound-joins b m m.alternative_entities r.alt (h.0 hit) in
        let (later, rest) = range_over-joins ms (widened b m r) h.1 in
        subst (λ (x : Ranging). (r.alt ≤ x.alt) × AllBelow x.alt (m ∷ ms))
          (sym (range_over-hit m ms r hit))
          (
            omega (arith, first, later),
            ((λ _. Below-mono b _ _ m.alternative_entities later below), rest),
          )
    | inr miss ↦
        let (later, rest) = range_over-joins ms r h.1 in
        subst (λ (x : Ranging). (r.alt ≤ x.alt) × AllBelow x.alt (m ∷ ms))
          (sym (range_over-miss m ms r miss)) (later, ((λ hit. cc), rest))
  ]

  pub range_over-separates :
      (ms : List ContestedMapping) (r : Ranging)
      → All (IsTowards alternative_separates id) ms
      → ((range_over b id ms r).alt ≤ r.alt) × AllAbove (range_over b id ms r).alt ms
  range_over-separates [] r h = rw range_over-nil (omega arith, tt)
  range_over-separates (m ∷ ms) r h = elim (Bool-cases (affects m id)) [
    | inl hit ↦
        let (first, above) =
          alternative_bound-separates b m m.alternative_entities r.alt (h.0 hit) in
        let (later, rest) = range_over-separates ms (widened b m r) h.1 in
        subst (λ (x : Ranging). (x.alt ≤ r.alt) × AllAbove x.alt (m ∷ ms))
          (sym (range_over-hit m ms r hit))
          (
            omega (arith, first, later),
            ((λ _. Above-mono b _ _ m.alternative_entities later above), rest),
          )
    | inr miss ↦
        let (later, rest) = range_over-separates ms r h.1 in
        subst (λ (x : Ranging). (x.alt ≤ r.alt) × AllAbove x.alt (m ∷ ms))
          (sym (range_over-miss m ms r miss)) (later, ((λ hit. cc), rest))
  ]

  -- The loop names entities exactly if a mapping affects the subject.
  pub range_over-ids :
      (ms : List ContestedMapping) (r : Ranging)
      → is_empty r.ids ≡ false
      → is_empty (range_over b id ms r).ids ≡ false
  range_over-ids [] r h = rw range_over-nil h
  range_over-ids (m ∷ ms) r h = elim (Bool-cases (affects m id)) [
    | inl hit ↦
        rw (range_over-hit m ms r hit)
          (range_over-ids ms (widened b m r) (is_empty-append_left r.ids m.held_canonical_ids h))
    | inr miss ↦ rw (range_over-miss m ms r miss) (range_over-ids ms r h)
  ]

  pub range_over-untouched :
      (ms : List ContestedMapping) (r : Ranging)
      → is_empty (range_over b id ms r).ids ≡ true
      → All (λ m. affects m id ≡ false) ms
  range_over-untouched [] r h = tt
  range_over-untouched (m ∷ ms) r h = elim (Bool-cases (affects m id)) [
    | inl hit ↦
        let named = contains-nonempty m.held_canonical_ids id hit in
        let grown = is_empty-append_right r.ids m.held_canonical_ids named in
        cc (range_over-hit m ms r hit, range_over-ids ms (widened b m r) grown)
    | inr miss ↦ (
      miss,
      range_over-untouched ms r
          (subst (λ (x : Ranging). is_empty x.ids ≡ true) (range_over-miss m ms r miss) h),
    )
  ]

  pub range_over-unaffected :
      (ms : List ContestedMapping) (r : Ranging)
      → All (λ m. affects m id ≡ false) ms
      → range_over b id ms r ≡ r
  range_over-unaffected [] r h = range_over-nil r
  range_over-unaffected (m ∷ ms) r h = range_over-miss m ms r h.0 ∙ range_over-unaffected ms r h.1
