-- ===== src/Schema.antt =====
-- internal/explore/schema/types.go: explorer identities, envelopes and their references.
pub mod Refs
use aimesh.Base.{
  ℕ, String, ◌≡◌, ◌↔◌, refl, Bool, true, false, ◌&&◌, List, [], ◌∷◌, Option, arith, leb, ◌==◌,
  Comparable, String_comparable, if◌then◌else◌,
}
use aimesh.Base.Number.{decimal, ◌<>◌}

pub record ExplorerIdentity : Type 0 where
  pub adapter : String
  pub model : String
  pub effort : String

abbrev pub same_identity : ExplorerIdentity → ExplorerIdentity → Bool
same_identity a b = a.adapter == b.adapter && a.model == b.model && a.effort == b.effort

pub same_identity_iff : (a b : ExplorerIdentity) → (same_identity a b ≡ true) ↔ (a ≡ b)
same_identity_iff a b = ground (
  arith,
  String_comparable.same_iff a.adapter b.adapter,
  String_comparable.same_iff a.model b.model,
  String_comparable.same_iff a.effort b.effort,
)

instance abbrev pub ExplorerIdentity_comparable : Comparable ExplorerIdentity
ExplorerIdentity_comparable = record { same = same_identity; same_iff = same_identity_iff }

pub data IdentityStatus : Type 0 where
  verified self_reported unknown mismatch : IdentityStatus

abbrev pub is_weak : IdentityStatus → Bool
is_weak verified = false
is_weak _ = true

-- A decoded JSON value, as far as the code looks into it: a Boolean, or any other value by its text.
pub data JsonValue : Type 0 where
  boolean : Bool → JsonValue
  other : String → JsonValue

pub record Envelope : Type 0 where
  pub id : String
  pub identity : ExplorerIdentity
  pub identity_status : IdentityStatus
  pub identity_evidence : String
  pub identity_caveat : String
  pub order : ℕ
  pub payload_hash : String
  pub response : List (String × JsonValue)
  -- the bytes of the body
  pub raw_response : List ℕ
  pub repairs : List String

unfoldable pub envelope_ref : ℕ → ℕ → String
unfolding decimal ◌<>◌
envelope_ref round_index order =
    if leb round_index 1
    then "envelope#" <> decimal order
    else "r" <> (decimal round_index <> (":envelope#" <> decimal order))

-- `v, ok := response["abstain"].(bool)`
abstain_flag : List (String × JsonValue) → Bool
abstain_flag [] = false
abstain_flag ((k, boolean b) ∷ rest) = if k == "abstain" then b else abstain_flag rest
abstain_flag ((k, other s) ∷ rest) = if k == "abstain" then false else abstain_flag rest

unfoldable pub is_abstention : List (String × JsonValue) → Bool
unfolding abstain_flag
is_abstention response = abstain_flag response
