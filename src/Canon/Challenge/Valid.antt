-- ===== src/Canon/Challenge/Valid.antt =====
-- Which challenges are accepted.
use aimesh.Base.{
  ◌≡◌, ◌≢◌, ◌↔◌, String, true, false, Bool-cases, inl, inr, List, String_comparable, arith,
}
use aimesh.Base.Outcome.{IsOk}
use aimesh.Base.Sets.{contains}
use aimesh.Base.Text.{is_blank}
use aimesh.Canon.Challenge.{
  ChallengeType, other_challenge, wrong_merge, wrong_split, label_bias, missing_item, injected_item,
  Challenge, is_valid, needs_target, needs_other, check_target, check_other, validate_challenge,
}

-- An entity of the presented partition.
abbrev pub IsPresented : List String → String → Type 0
IsPresented known id = (is_blank id ≡ false) × (contains known id ≡ true)

needs_target_iff : (t : ChallengeType) → (needs_target t ≡ true) ↔ (t ≢ missing_item)
needs_target_iff wrong_merge = ground arith
needs_target_iff wrong_split = ground arith
needs_target_iff label_bias = ground arith
needs_target_iff missing_item = ground arith
needs_target_iff injected_item = ground arith
needs_target_iff (other_challenge s) = ground arith

needs_other_iff : (t : ChallengeType) → (needs_other t ≡ true) ↔ (t ≡ wrong_split)
needs_other_iff wrong_merge = ground arith
needs_other_iff wrong_split = ground arith
needs_other_iff label_bias = ground arith
needs_other_iff missing_item = ground arith
needs_other_iff injected_item = ground arith
needs_other_iff (other_challenge s) = ground arith

module _ (known : List String) (c : Challenge) where
  check_target_iff : IsOk (check_target known c) ↔ IsPresented known c.canonical_id
  unfolding check_target
  check_target_iff = ground arith

  check_other_iff :
      IsOk (check_other known c)
      ↔ (IsPresented known c.other_canonical_id × (c.other_canonical_id ≢ c.canonical_id))
  unfolding check_other
  check_other_iff = ground (arith, String_comparable.same_iff c.other_canonical_id c.canonical_id)

-- A challenge is accepted exactly if its type is known, it gives a reason, it names a presented entity
-- unless an item is missing, and a wrong split names a second, different one.
pub validate_challenge_iff :
    (known : List String) (c : Challenge)
    → IsOk (validate_challenge known c) ↔ (
        (is_valid c.type ≡ true)
        × (is_blank c.reason ≡ false)
        × (c.type ≢ missing_item → IsPresented known c.canonical_id)
        × (c.type ≡ wrong_split
            → IsPresented known c.other_canonical_id × (c.other_canonical_id ≢ c.canonical_id)))
unfolding validate_challenge
validate_challenge_iff known c =
    let target = needs_target_iff c.type in
    let other = needs_other_iff c.type in
    (
      λ o. (
        ground (arith, o.1),
        ground (arith, o.1),
        λ t. (check_target_iff known c).0 (ground (arith, o.1, target.1 t)),
        λ t. (check_other_iff known c).0 (ground (arith, o.1, other.1 t)),
      ),
      λ h. elim (Bool-cases (needs_target c.type)) [
        | inl t ↦ elim (Bool-cases (needs_other c.type)) [
          | inl u ↦ ground (
            arith,
            h.0,
            h.1,
            t,
            u,
            (check_target_iff known c).1 (h.2 (target.0 t)),
            (check_other_iff known c).1 (h.3 (other.0 u)),
          )
          | inr u ↦ ground (arith, h.0, h.1, t, u, (check_target_iff known c).1 (h.2 (target.0 t)))
        ]
        | inr t ↦ elim (Bool-cases (needs_other c.type)) [
          | inl u ↦ ground (arith, h.0, h.1, t, u, (check_other_iff known c).1 (h.3 (other.0 u)))
          | inr u ↦ ground (arith, h.0, h.1, t, u)
        ]
      ],
    )
