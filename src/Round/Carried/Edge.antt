-- ===== src/Round/Carried/Edge.antt =====
-- Which artifacts pass the edge into a round.
use aimesh.Base.{
  List, ℕ, ◌≤◌, ◌≡◌, ◌↔◌, ◌⊎◌, inr, ◌≢◌, String, true, false, length, arith, String_comparable,
}
use aimesh.Base.Outcome.{ok}
use aimesh.Base.Sets.{contains}
use aimesh.Base.Text.{is_blank}
use aimesh.Round.Project.{Item, Payload, Caps, project}
use aimesh.Round.Project.Bounds.{project-IsWithin}
use aimesh.Round.Carried.{
  Trust, current_version, Discriminant, Artifact, new_artifact, Accepts, Kind_comparable, is_known,
  validate_edge,
}

abbrev pub IsDiscriminant : Discriminant → Type 0
IsDiscriminant d = (is_blank d.mode ≡ false) × (1 ≤ d.round_index) × (is_known d.kind ≡ true)

-- What a consuming round requires of an artifact.
pub record IsCompatible (a : Artifact) (acc : Accepts) : Type 0 where
  pub typed : IsDiscriminant a.discriminant
  pub hashed : a.content_hash ≢ ""
  pub versioned : acc.schema_version ≡ a.schema_version
  pub kind : contains acc.kinds a.discriminant.kind ≡ true
  pub bounded : (acc.max_items ≡ 0) ⊎ (length a.payload.items ≤ acc.max_items)

-- The edge lets through the compatible artifacts and no others.
pub validate_edge_iff :
    (a : Artifact) (acc : Accepts) → (validate_edge a acc ≡ ok tt) ↔ IsCompatible a acc
unfolding validate_edge
validate_edge_iff a acc = (
  λ e. ground (arith, String_comparable.same_iff a.content_hash ""),
  λ h. ground (arith, String_comparable.same_iff a.content_hash ""),
)

-- An artifact that `new_artifact` returns passes every edge that takes its kind, the version of
-- this program and as many items, if digests are not empty.
pub validate_edge-new_artifact :
    (digest : Discriminant → ℕ → Payload → String) (d : Discriminant) (producer : String)
    (trust : Trust) (refs : List String) (items : List Item) (caps : Caps) (a : Artifact)
    (acc : Accepts)
    → ((v : ℕ) (p : Payload) → digest d v p ≢ "")
    → new_artifact digest d producer trust refs items caps ≡ ok a
    → acc.schema_version ≡ current_version
    → contains acc.kinds d.kind ≡ true
    → length items ≤ acc.max_items
    → validate_edge a acc ≡ ok tt
unfolding new_artifact
validate_edge-new_artifact digest d producer trust refs items caps a acc nonempty e version kind
      few =
    let within = project-IsWithin items caps in
    (validate_edge_iff a acc).1 (record {
      typed = (ground arith, ground arith, ground arith);
      hashed = λ h. ground (arith, nonempty current_version (project items caps));
      versioned = ground arith;
      kind = ground arith;
      bounded = inr (ground (arith, within.accounted));
    })
