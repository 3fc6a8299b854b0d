-- ===== src/Round/Carried.antt =====
-- Artifacts of round.go and the edge between a producing and a consuming round. The digest of an
-- artifact (the hex SHA-256 of its JSON) is a parameter.
pub mod Edge
use aimesh.Base.{
  ℕ, String, Bool, true, false, not, List, [], ◌∷◌, length, eqb, ltb, leb, ◌==◌, ◌&&◌, ◌||◌,
  Comparable, ℕ_comparable, String_comparable, if◌then◌else◌, ◌≡◌, ◌↔◌, arith,
}
use aimesh.Base.Outcome.{Outcome, ok, err, ◌>>=◌, ◌>>◌, refuse}
use aimesh.Base.Sets.{contains}
use aimesh.Base.Text.{is_blank}
use aimesh.Round.Project.{Item, Payload, Caps, project}

-- A kind is a text in the program: the three that it knows, or any other.
pub data Kind : Type 0 where
  blind_envelopes canonical_uniques provisional_partition : Kind
  other_kind : String → Kind

abbrev pub same_kind : Kind → Kind → Bool
same_kind blind_envelopes blind_envelopes = true
same_kind canonical_uniques canonical_uniques = true
same_kind provisional_partition provisional_partition = true
same_kind (other_kind a) (other_kind b) = a == b
same_kind _ _ = false

pub same_kind_iff : (a b : Kind) → (same_kind a b ≡ true) ↔ (a ≡ b)
same_kind_iff blind_envelopes b = ground arith
same_kind_iff canonical_uniques b = ground arith
same_kind_iff provisional_partition b = ground arith
same_kind_iff (other_kind a) (other_kind b) = ground (arith, String_comparable.same_iff a b)
same_kind_iff (other_kind a) blind_envelopes = ground arith
same_kind_iff (other_kind a) canonical_uniques = ground arith
same_kind_iff (other_kind a) provisional_partition = ground arith

instance abbrev pub Kind_comparable : Comparable Kind
Kind_comparable = record { same = same_kind; same_iff = same_kind_iff }

abbrev pub is_known : Kind → Bool
is_known (other_kind s) = false
is_known _ = true

pub data Trust : Type 0 where
  host_derived untrusted_model_data : Trust

pub record Discriminant : Type 0 where
  pub mode : String
  pub round_index : ℕ
  pub kind : Kind

pub data EdgeError : Type 0 where
  no_mode : EdgeError
  not_one_based : ℕ → EdgeError
  unknown_kind : Kind → EdgeError
  no_content_hash : EdgeError
  version_mismatch : ℕ → ℕ → EdgeError
  kind_refused : Kind → List Kind → EdgeError
  too_many_items : ℕ → ℕ → EdgeError

-- `Discriminant.Validate`
unfoldable pub validate : Discriminant → Outcome EdgeError (Unit {0})
validate d = do
  refuse (is_blank d.mode) no_mode
  refuse (ltb d.round_index 1) (not_one_based d.round_index)
  refuse (not (is_known d.kind)) (unknown_kind d.kind)

pub record Artifact : Type 0 where
  pub discriminant : Discriminant
  pub schema_version : ℕ
  pub producer_round_id : String
  pub content_hash : String
  pub source_envelope_refs : List String
  pub trust : Trust
  pub payload : Payload

abbrev pub current_version : ℕ
current_version = 1

abbrev pub artifact_of :
    (Discriminant → ℕ → Payload → String)
    → Discriminant
    → String
    → Trust
    → List String
    → Payload
    → Artifact
artifact_of digest d producer trust refs payload = record {
  discriminant = d;
  schema_version = current_version;
  producer_round_id = producer;
  content_hash = digest d current_version payload;
  source_envelope_refs = refs;
  trust = trust;
  payload = payload;
}

unfoldable pub new_artifact :
    (Discriminant → ℕ → Payload → String)
    → Discriminant
    → String
    → Trust
    → List String
    → List Item
    → Caps
    → Outcome EdgeError Artifact
unfolding validate
new_artifact digest d producer trust refs items caps = do
  validate d
  ok (artifact_of digest d producer trust refs (project items caps))

pub record Accepts : Type 0 where
  pub kinds : List Kind
  pub schema_version : ℕ
  -- 0 means that only the projection caps apply
  pub max_items : ℕ

unfoldable pub validate_edge : Artifact → Accepts → Outcome EdgeError (Unit {0})
unfolding validate
validate_edge a acc = do
  let count = length a.payload.items
  validate a.discriminant
  refuse (a.content_hash == "") no_content_hash
  refuse (not (eqb acc.schema_version a.schema_version))
      (version_mismatch a.schema_version acc.schema_version)
  refuse (not (contains acc.kinds a.discriminant.kind)) (kind_refused a.discriminant.kind acc.kinds)
  refuse (ltb 0 acc.max_items && ltb acc.max_items count) (too_many_items count acc.max_items)
