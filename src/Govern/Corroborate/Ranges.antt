-- ===== src/Govern/Corroborate/Ranges.antt =====
-- The range of a contested count.
use mathlib.Core.Path.{subst}
use aimesh.Base.{
  ℕ, ◌≤◌, true, ap, ◌∙◌, List, ◌∷◌, ◌++◌, All-map, ◌≡◌, false, none, some, ◌↔◌, All, arith, min,
  max, String_comparable,
}
use aimesh.Canon.Contested.{ContestedMapping, alternative_joins, alternative_separates, affects}
use aimesh.Govern.Claim.{Sensitivity}
use aimesh.Govern.Corroborate.{
  CountInput, Ranging, count_baseline_sources, no_range, range_over, range_of, sensitivity,
}
use aimesh.Govern.Corroborate.Looped.{
  IsTowards, AllBelow, AllAbove, range_over-joins, range_over-separates, range_over-append,
  range_over-untouched, range_over-unaffected,
}

module _ (i : CountInput) (held : ℕ) where
  abbrev result : Ranging
  result = range_over i.baseline i.canonical_id i.contested (no_range held)

  sensitivity-range :
      (s : Sensitivity)
      → sensitivity i held ≡ some s
      → (s.alternative_value ≡ result.alt)
        × (s.held_value ≡ held)
        × (s.low ≡ min held result.alt)
        × (s.high ≡ max held result.alt)
  unfolding sensitivity range_of
  sensitivity-range s e = (ground arith, ground arith, ground arith, ground arith)

  -- There is no range exactly if no contested mapping affects the subject.
  pub sensitivity-none_iff :
      (sensitivity i held ≡ none) ↔ All (λ m. affects m i.canonical_id ≡ false) i.contested
  unfolding sensitivity range_of
  sensitivity-none_iff = (
    λ e. range_over-untouched i.baseline i.canonical_id i.contested (no_range held) (ground arith),
    λ h.
        ground
          (arith, range_over-unaffected i.baseline i.canonical_id i.contested (no_range held) h),
  )

  -- The range runs between the held count and the count of the alternative partition.
  pub sensitivity_bounds :
      (s : Sensitivity)
      → sensitivity i held ≡ some s
      → (s.held_value ≡ held)
        × (s.low ≡ min held s.alternative_value)
        × (s.high ≡ max held s.alternative_value)
  sensitivity_bounds s e =
      let (alt, kept, low, high) = sensitivity-range s e in (kept, rw alt low, rw alt high)

  -- Where every mapping that affects the subject would join entities, the range starts at the held
  -- count, and no alternative entity of such a mapping counts more than its top.
  pub sensitivity-joins :
      (s : Sensitivity)
      → All (IsTowards alternative_joins i.canonical_id) i.contested
      → sensitivity i held ≡ some s
      → (s.low ≡ held) × AllBelow i.baseline i.canonical_id s.high i.contested
  sensitivity-joins s h e =
      let (alt, kept, low, high) = sensitivity-range s e in
      let (grows, below) =
        range_over-joins i.baseline i.canonical_id i.contested (no_range held) h in
      let top : result.alt ≡ s.high = omega (arith, high, grows) in
      (
        omega (arith, low, grows),
        subst (λ n. AllBelow i.baseline i.canonical_id n i.contested) top below,
      )

  -- Where every mapping that affects the subject would separate entities, the range ends at the
  -- held count, and no alternative entity of such a mapping counts less than its bottom.
  pub sensitivity-separates :
      (s : Sensitivity)
      → All (IsTowards alternative_separates i.canonical_id) i.contested
      → sensitivity i held ≡ some s
      → (s.high ≡ held) × AllAbove i.baseline i.canonical_id s.low i.contested
  sensitivity-separates s h e =
      let (alt, kept, low, high) = sensitivity-range s e in
      let (falls, above) =
        range_over-separates i.baseline i.canonical_id i.contested (no_range held) h in
      let bottom : result.alt ≡ s.low = omega (arith, low, falls) in
      (
        omega (arith, high, falls),
        subst (λ n. AllAbove i.baseline i.canonical_id n i.contested) bottom above,
      )

  -- From a mapping on that affects the subject and separates, where of those that affect it only
  -- separating ones follow, the range reaches no higher than the larger of the held count and the count
  -- of any entity of that mapping, whatever the mappings before it count: a larger count of a
  -- mapping that joins is left out.
  pub sensitivity-separates_last :
      (s : Sensitivity) (before after : List ContestedMapping) (m : ContestedMapping)
      → i.contested ≡ before ++ (m ∷ after)
      → affects m i.canonical_id ≡ true
      → All (IsTowards alternative_separates i.canonical_id) (m ∷ after)
      → sensitivity i held ≡ some s
      → All (λ ae. s.high ≤ max held (count_baseline_sources i.baseline ae)) m.alternative_entities
  sensitivity-separates_last s before after m parts hit h e =
      let (alt, kept, low, high) = sensitivity-range s e in
      let reached = range_over i.baseline i.canonical_id before (no_range held) in
      let (falls, above) = range_over-separates i.baseline i.canonical_id (m ∷ after) reached h in
      let same : result ≡ range_over i.baseline i.canonical_id (m ∷ after) reached =
        ap (λ ms. range_over i.baseline i.canonical_id ms (no_range held)) parts
        ∙ range_over-append i.baseline i.canonical_id before (m ∷ after) (no_range held) in
      All-map
        (λ ae.
          (range_over i.baseline i.canonical_id (m ∷ after) reached).alt
          ≤ count_baseline_sources i.baseline ae)
        (λ ae. s.high ≤ max held (count_baseline_sources i.baseline ae))
        (λ ae least. omega (arith, high, ap (λ (r : Ranging). r.alt) same, least))
        m.alternative_entities (above.0 hit)
