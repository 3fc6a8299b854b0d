-- ===== src/Govern/Estimate/Forecasters.antt =====
-- What an estimate claim counts, cites and says.
use aimesh.Base.{
  ◌≤◌, ◌<◌, ◌≡◌, ◌↔◌, sym, ap, ◌∙◌, String, String_comparable, true, ◌&&◌, List, [], ◌∷◌, length,
  keep, eqb, arith,
}
use aimesh.Base.Order.{contains-sort_texts}
use aimesh.Base.Outcome.{ok, refuse, >>=-eq-ok}
use aimesh.Base.Sets.{
  contains, key_set, IsUnique, contains-key_set, key_set-IsUnique, length-IsUnique-le,
}
use aimesh.Schema.{ExplorerIdentity, ExplorerIdentity_comparable}
use aimesh.Govern.Policy.{quorum_met}
use aimesh.Govern.Baseline.{BlindBaseline, size, contains_ref}
use aimesh.Govern.Claim.{Claim, definitive, corroborated}
use aimesh.Govern.Estimate.{
  EstimateClaimInput, no_estimate_baseline, estimate, estimate_claim, estimate_label, distinct,
}

contains-keep :
    (b : BlindBaseline) (refs : List String) (ref : String)
    → contains (keep (contains_ref b) refs) ref ≡ (contains_ref b ref && contains refs ref)
contains-keep b [] ref = ground arith
contains-keep b (x ∷ refs) ref =
    ground (arith, contains-keep b refs ref, String_comparable.same_iff x ref)

estimate_made :
    (i : EstimateClaimInput) (c : Claim)
    → estimate_claim i ≡ ok c
    → (0 < size i.baseline) × (c ≡ estimate i)
unfolding estimate_claim
estimate_made i c e =
    let (_, some_ref, made) =
      >>=-eq-ok (refuse (eqb (size i.baseline) 0) no_estimate_baseline) _ e in
    (ground (arith, some_ref), cc)

distinct-IsUnique :
    (xs ids : List ExplorerIdentity)
    → IsUnique ids
    → ((a : ExplorerIdentity) → contains ids a ≡ contains xs a)
    → distinct xs ≡ length ids
distinct-IsUnique xs ids u same =
    let fewer =
      length-IsUnique-le (key_set xs) ids (key_set-IsUnique xs)
        (λ a h. same a ∙ (sym (contains-key_set xs a) ∙ h)) in
    let more =
      length-IsUnique-le ids (key_set xs) u (λ a h. contains-key_set xs a ∙ (sym (same a) ∙ h)) in
    omega (arith, fewer, more)

-- For a list `ids` that has each of the given forecasters once and nobody else: an estimate claim cites
-- exactly those of the given envelopes that are in the blind baseline, its value is the length of
-- `ids`, it is definitive exactly if the panel's quorum is met, and corroborated exactly if its value
-- is also at least 2.
pub estimate_claim_lem :
    (i : EstimateClaimInput) (c : Claim) (ref : String) (ids : List ExplorerIdentity)
    → IsUnique ids
    → ((a : ExplorerIdentity) → contains ids a ≡ contains i.sources a)
    → estimate_claim i ≡ ok c
    → (contains c.contributing_source_ids ref
        ≡ (contains_ref i.baseline ref && contains i.envelope_refs ref))
      × (c.value ≡ length ids)
      × ((definitive c.label ≡ true) ↔ (quorum_met i.panel ≡ true))
      × ((c.label ≡ corroborated) ↔ ((quorum_met i.panel ≡ true) × (2 ≤ c.value)))
unfolding estimate
estimate_claim_lem i c ref ids u same e =
    let made = (estimate_made i c e).1 in
    let cited = keep (contains_ref i.baseline) i.envelope_refs in
    let value : c.value ≡ distinct i.sources = ap (λ (x : Claim). x.value) made in
    let label : c.label ≡ estimate_label (distinct i.sources) i.panel =
      ap (λ (x : Claim). x.label) made in
    (
      ap (λ (x : Claim). contains x.contributing_source_ids ref) made
          ∙ contains-sort_texts (key_set cited) ref
          ∙ contains-key_set cited ref
          ∙ contains-keep i.baseline i.envelope_refs ref,
      value ∙ distinct-IsUnique i.sources ids u same,
      ground (arith, label),
      ground (arith, label, value),
    )
