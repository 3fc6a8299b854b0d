-- ===== src/Canon/Build/Pins.antt =====
-- The head of a ledger's chain pins the partition.
use native.Mathlib.Decide.{ℕ_discrete}
use aimesh.Base.{◌≡◌, sym, ◌∙◌, ◌⊎◌, inl, inr, List}
use aimesh.Base.Chain.{chain_pins, Collision, Returns, String_discrete}
use aimesh.Base.Outcome.{ok}
use aimesh.Canon.Ledger.{ProposedCluster, Attribution, LedgerRow, Ledger}
use aimesh.Canon.Build.{Job, build_ledger}
use aimesh.Canon.Build.Members.{all_rows}
use aimesh.Canon.Build.Gate.{build_ledger-Recorded}

Attribution-discrete : Discrete Attribution
Attribution-discrete = hlevel String_discrete

LedgerRow-discrete : Discrete LedgerRow
LedgerRow-discrete = hlevel (ℕ_discrete, String_discrete, Attribution-discrete)

-- Two accepted partitions whose ledgers chain to one prior revision and end at one head have the
-- same rows, or two different inputs of the digest collide, or it gives the prior head back.
pub build_ledger_pins :
    (j : Job) (cs ds : List ProposedCluster) (l m : Ledger)
    → build_ledger j cs ≡ ok l
    → build_ledger j ds ≡ ok m
    → l.revision_hash ≡ m.revision_hash
    → (l.rows ≡ m.rows) ⊎ (Collision j.digest.row ⊎ Returns j.digest.row j.prior)
build_ledger_pins j cs ds l m built_l built_m e =
    let kept_l = build_ledger-Recorded j cs l built_l in
    let kept_m = build_ledger-Recorded j ds m built_m in
    elim (chain_pins j.digest.row LedgerRow-discrete j.prior (all_rows j cs) (all_rows j ds)
      (sym kept_l.head ∙ e ∙ kept_m.head)) [
        | inl same ↦ inl (kept_l.rows ∙ same ∙ sym kept_m.rows)
        | inr other ↦ inr other
      ]
