-- ===== src/Canon/Confirmation/Answered.antt =====
-- How many resolutions `Confirm` of confirm.go gives.
use mathlib.Core.Path.{subst}
use aimesh.Base.{
  ℕ, ◌+◌, ◌≡◌, refl, sym, ap, ◌∙◌, String, true, false, Bool-cases, List, [], ◌∷◌, inl, inr, length,
  length-append, arith, if◌then◌else◌, ◌==◌, String_comparable,
}
use aimesh.Base.Outcome.{ok, ok-injective, >>=-eq-ok, refuse, wrap_err}
use aimesh.Base.Sets.{contains, insert, IsUnique}
use aimesh.Canon.Ledger.{ContestedMerge, Digest}
use aimesh.Canon.View.{Result}
use aimesh.Canon.Challenge.{ChallengeType, wrong_merge, Challenge, validate_challenge}
use aimesh.Canon.Splits.{entities, split_detail, bad_challenge, panics}
use aimesh.Canon.Presented.{Presentation}
use aimesh.Canon.Disputed.{is_wrong_merge, merge_challenges_for}
use aimesh.Canon.Confirmation.{
  Confirmation, Review, Action, Detail, misreads, judge_challenge, judge_challenges, settle_target,
  settle_targets, carry_merges, resolve_all, no_review, known_ids, confirm, cannot_split,
}
use aimesh.Canon.Confirmation.Revised.{flagged, judge_challenges-targets, confirm_cases}

abbrev answers : Review → ℕ
answers v = length v.resolutions

-- Go meets each key of a map once, in an order of its own.
abbrev pub IsIteration : (List String → List String) → Type 0
IsIteration iterate =
    (ids : List String)
    → IsUnique ids
    → IsUnique (iterate ids) × ((id : String) → contains (iterate ids) id ≡ contains ids id)

abbrev other_challenges : List Challenge → ℕ
other_challenges [] = 0
other_challenges (ch ∷ chs) = (if is_wrong_merge ch.type then 0 else 1) + other_challenges chs

abbrev answered_in : List Challenge → List String → ℕ
answered_in chs [] = 0
answered_in chs (id ∷ ids) = length (merge_challenges_for chs id) + answered_in chs ids

-- 1 for an id of the list.
abbrev present_once : String → List String → ℕ
present_once s [] = 0
present_once s (id ∷ ids) = (if s == id then 1 else 0) + present_once s ids

present_once-absent :
    (s : String) (ids : List String) → contains ids s ≡ false → present_once s ids ≡ 0
present_once-absent s [] h = refl
present_once-absent s (id ∷ ids) h = ground (
  arith,
  present_once-absent s ids,
  String_comparable.same_iff s id,
  String_comparable.same_iff id s,
)

present_once-IsUnique :
    (s : String) (ids : List String) → IsUnique ids → contains ids s ≡ true → present_once s ids ≡ 1
present_once-IsUnique s [] u h = cc
present_once-IsUnique s (id ∷ ids) u h = elim (Bool-cases (id == s)) [
  | inl e ↦
      let same : id ≡ s = (String_comparable.same_iff id s).0 e in
      let absent : contains ids s ≡ false = ap (contains ids) (sym same) ∙ u.0 in
      ground (arith, present_once-absent s ids absent, String_comparable.same_iff s id)
  | inr e ↦ ground (
    arith,
    present_once-IsUnique s ids u.1,
    String_comparable.same_iff s id,
    String_comparable.same_iff id s,
  )
]

answered_in-cons :
    (ch : Challenge) (chs : List Challenge) (ids : List String)
    → answered_in (ch ∷ chs) ids
      ≡ (if is_wrong_merge ch.type then present_once ch.canonical_id ids else 0)
        + answered_in chs ids
answered_in-cons ch chs [] = ground arith
answered_in-cons ch chs (id ∷ ids) = ground (arith, answered_in-cons ch chs ids)

answered_in-none : (ids : List String) → answered_in [] ids ≡ 0
answered_in-none [] = refl
answered_in-none (id ∷ ids) = omega (arith, answered_in-none ids)

-- Over distinct ids that have all that are flagged, the two loops answer each challenge once.
all_answered :
    (chs : List Challenge) (ids : List String)
    → IsUnique ids
    → ((id : String) → contains (flagged chs) id ≡ true → contains ids id ≡ true)
    → other_challenges chs + answered_in chs ids ≡ length chs
all_answered [] ids u h = omega (arith, answered_in-none ids)
all_answered (ch ∷ chs) ids u h =
    let later = all_answered chs ids u (λ id k. h id (elim (Bool-cases (is_wrong_merge ch.type)) [
      | inl e ↦ rw e (ground (arith, k))
      | inr e ↦ rw e k
    ])) in
    elim (Bool-cases (is_wrong_merge ch.type)) [
      | inl e ↦
          let mine : contains ids ch.canonical_id ≡ true =
            h ch.canonical_id
              (rw e (ground (arith, String_comparable.same_iff ch.canonical_id ch.canonical_id))) in
          ground (
            arith,
            later,
            answered_in-cons ch chs ids,
            present_once-IsUnique ch.canonical_id ids u mine,
          )
      | inr e ↦ ground (arith, later, answered_in-cons ch chs ids)
    ]

answers-resolve_all :
    (a : Action) (d : Detail) (chs : List Challenge) (v : Review)
    → answers (resolve_all a d chs v) ≡ length chs + answers v
answers-resolve_all a d [] v = omega arith
answers-resolve_all a d (ch ∷ chs) v =
    omega (arith, answers-resolve_all a d chs _, length-append v.resolutions (_ ∷ []))

module _ (prov : Result) (assign : List String) where
  answers-judge_challenge :
      (ch : Challenge) (t : ChallengeType) (v : Review)
      → answers (judge_challenge prov assign ch t v)
        ≡ (if is_wrong_merge t then 0 else 1) + answers v
  answers-judge_challenge ch wrong_merge v = omega arith
  answers-judge_challenge ch _ v = omega (arith, length-append v.resolutions (_ ∷ []))

  insert-IsUnique : (id : String) (ids : List String) → IsUnique ids → IsUnique (insert id ids)
  insert-IsUnique id ids u = ground arith

  judge_challenge-IsUnique :
      (ch : Challenge) (t : ChallengeType) (v : Review)
      → IsUnique v.split_targets
      → IsUnique (judge_challenge prov assign ch t v).split_targets
  judge_challenge-IsUnique ch wrong_merge v u = insert-IsUnique ch.canonical_id v.split_targets u
  judge_challenge-IsUnique ch _ v u = u

  judge_challenges-answers :
      (known : List String) (chs : List Challenge) (v out : Review)
      → judge_challenges known prov assign chs v ≡ ok out
      → IsUnique v.split_targets
      → IsUnique out.split_targets × (answers out ≡ other_challenges chs + answers v)
  unfolding judge_challenges
  judge_challenges-answers known [] v out e u =
      let same : v ≡ out = ok-injective e in
      (subst (λ (x : Review). IsUnique x.split_targets) same u, omega (arith, ap answers same))
  judge_challenges-answers known (ch ∷ chs) v out e u =
      let (_, _, e1) = >>=-eq-ok (wrap_err bad_challenge (validate_challenge known ch)) _ e in
      let (_, _, rest) = >>=-eq-ok (refuse (misreads prov assign ch ch.type) panics) _ e1 in
      let (unique, later) =
        judge_challenges-answers known chs (judge_challenge prov assign ch ch.type v) out rest
          (judge_challenge-IsUnique ch ch.type v u) in
      (unique, omega (arith, later, answers-judge_challenge ch ch.type v))

  answers-settle_target :
      (chs : List Challenge) (id : String) (v : Review)
      → answers (settle_target prov assign chs id v)
        ≡ length (merge_challenges_for chs id) + answers v
  answers-settle_target chs id v =
      elim (Bool-cases (cannot_split (split_detail prov (entities assign) id))) [
        | inl e ↦ rw e (answers-resolve_all _ _ (merge_challenges_for chs id) v)
        | inr e ↦ rw e (answers-resolve_all _ _ (merge_challenges_for chs id) v)
      ]

  answers-settle_targets :
      (chs : List Challenge) (ids : List String) (v : Review)
      → answers (settle_targets prov assign chs ids v) ≡ answered_in chs ids + answers v
  unfolding settle_targets
  answers-settle_targets chs [] v = omega arith
  answers-settle_targets chs (id ∷ ids) v = omega (
    arith,
    answers-settle_targets chs ids (settle_target prov assign chs id v),
    answers-settle_target chs id v,
  )

  answers-carry_merges :
      (reason_of : ContestedMerge → String) (ms : List ContestedMerge) (v : Review)
      → answers (carry_merges reason_of prov assign ms v) ≡ answers v
  answers-carry_merges reason_of [] v = refl
  answers-carry_merges reason_of (m ∷ ms) v = answers-carry_merges reason_of ms _

-- A confirmation has as many resolutions as there are challenges, in whatever order Go meets the targets.
pub confirm-answers :
    (digest : Digest) (iterate : List String → List String) (reason_of : ContestedMerge → String)
    (prov : Result) (pres : Presentation) (chs : List Challenge) (c : Confirmation)
    → IsIteration iterate
    → confirm digest iterate reason_of prov pres chs ≡ ok c
    → length c.resolutions ≡ length chs
confirm-answers digest iterate reason_of prov pres chs c once e =
    let (assign, v, old, led, clusters, f, g, h, k, same) =
      confirm_cases digest iterate reason_of prov pres chs c e in
    let (unique, judged) =
      judge_challenges-answers prov assign (known_ids prov) chs no_review v g tt in
    let (unique', all_keys) = once v.split_targets unique in
    let settled = settle_targets prov assign chs (iterate v.split_targets) v in
    let every = all_answered chs (iterate v.split_targets) unique' (λ id p.
      all_keys id
      ∙ judge_challenges-targets (known_ids prov) prov assign chs no_review v id g
      ∙ ground (arith, p)) in
    let carried = answers-carry_merges prov assign reason_of old.contested settled in
    let resolved = answers-settle_targets prov assign chs (iterate v.split_targets) v in
    ap (λ (x : Confirmation). length x.resolutions) (sym same)
    ∙ omega (arith, every, judged, carried, resolved)
