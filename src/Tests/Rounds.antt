-- ===== src/Tests/Rounds.antt =====
-- Projection and edges on the sample.
use aimesh.Base.{ℕ, ◌≡◌, ◌↔◌, ◌≤◌, ◌<◌, ◌⊎◌, length, refl, String, false, List, [], ◌∷◌, arith}
use aimesh.Base.Outcome.{ok, IsOk}
use aimesh.Round.Project.{Item, Payload, Caps, take, clip_utf8, project}
use aimesh.Round.Project.Bounds.{IsWithin, IsCut, project-IsWithin, clip_utf8_boundary}
use aimesh.Round.Carried.{
  Discriminant, canonical_uniques, host_derived, Accepts, new_artifact, validate, validate_edge,
}
use aimesh.Round.Carried.Edge.{IsCompatible, validate_edge_iff, validate_edge-new_artifact}
use aimesh.Base.Text.{is_blank, trim_space}
use aimesh.Tests.Sample.{ann}

-- "né", whose second letter takes two bytes
abbrev text : List ℕ
text = 110 ∷ 195 ∷ 169 ∷ []

abbrev items : List Item
items = record { ref = "a"; text = text; attribution = ann ∷ []; truncated = false } ∷ []

abbrev caps : Caps
caps = record { max_items = 4; max_item_bytes = 2; max_total_bytes = 10 }

project-IsWithin_example : IsWithin caps items (project items caps)
project-IsWithin_example = project-IsWithin items caps

abbrev two : ℕ
two = 2

clip_utf8_boundary_example :
    ((length text ≤ two) × (clip_utf8 text two ≡ text))
    ⊎ ((two < length text) × (k : ℕ) × (clip_utf8 text two ≡ take k text) × IsCut text two k)
clip_utf8_boundary_example = clip_utf8_boundary text two

abbrev discriminant : Discriminant
discriminant = record { mode = "shortlist"; round_index = 1; kind = canonical_uniques }

abbrev digest : Discriminant → ℕ → Payload → String
digest d v p = "hash"

made : IsOk (new_artifact digest discriminant "round-1" host_derived [] items caps)
unfolding new_artifact validate is_blank trim_space
made = (_, refl)

abbrev accepts : Accepts
accepts = record { kinds = canonical_uniques ∷ []; schema_version = 1; max_items = 3 }

validate_edge_iff_example : (validate_edge made.0 accepts ≡ ok tt) ↔ IsCompatible made.0 accepts
validate_edge_iff_example = validate_edge_iff made.0 accepts

validate_edge-new_artifact_example : validate_edge made.0 accepts ≡ ok tt
validate_edge-new_artifact_example =
    validate_edge-new_artifact digest discriminant "round-1" host_derived [] items caps made.0
      accepts (λ v p e. cc) made.1 refl refl (omega arith)
