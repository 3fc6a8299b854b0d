-- ===== src/Govern/Claim/Emitted.antt =====
-- The claim ledger is append-only, and its head pins every emission.
use native.Mathlib.Decide.{ℕ_discrete}
use aimesh.Base.Chain.{chain, chain_pins, Collision, Returns, String_discrete}
use aimesh.Base.{◌⊎◌, ◌≡◌, refl, ◌∙◌, sym, String, List, [], ◌∷◌, ◌++◌}
use aimesh.Govern.Claim.{Claim, ClaimLedger, no_claims, emit}
use mathlib.Core.List.{append-nil, append_assoc}

Claim-discrete : Discrete Claim
Claim-discrete = hlevel (ℕ_discrete, String_discrete)

module _ (digest : String → Claim → String) where
  abbrev pub emit_all : ClaimLedger → List Claim → ClaimLedger
  emit_all l [] = l
  emit_all l (c ∷ cs) = emit_all (emit digest l c).0 cs

  pub claims-emit_all :
      (l : ClaimLedger) (cs : List Claim) → (emit_all l cs).claims ≡ l.claims ++ cs
  unfolding emit
  claims-emit_all l [] = sym (append-nil l.claims)
  claims-emit_all l (c ∷ cs) =
      claims-emit_all (emit digest l c).0 cs ∙ append_assoc l.claims (c ∷ []) cs

  hash-emit_all :
      (l : ClaimLedger) (cs : List Claim) → (emit_all l cs).hash ≡ chain digest l.hash cs
  unfolding emit
  hash-emit_all l [] = refl
  hash-emit_all l (c ∷ cs) = hash-emit_all (emit digest l c).0 cs

  -- Two runs of emissions from an empty ledger that end at one head emitted the same claims in the
  -- same order, or two different inputs of the digest collide, or it gives the empty text.
  pub emit_all_pins :
      (cs ds : List Claim)
      → (emit_all no_claims cs).hash ≡ (emit_all no_claims ds).hash
      → (cs ≡ ds) ⊎ (Collision digest ⊎ Returns digest "")
  emit_all_pins cs ds e =
      chain_pins digest Claim-discrete "" cs ds
        (sym (hash-emit_all no_claims cs) ∙ e ∙ hash-emit_all no_claims ds)
