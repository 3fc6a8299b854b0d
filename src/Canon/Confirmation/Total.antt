-- ===== src/Canon/Confirmation/Total.antt =====
-- The runs of `Confirm` (confirm.go), by the call that ends them.
use aimesh.Base.{
  ℕ, suc, ◌≤◌, ◌↔◌, sym, length, Bool, All, arith, [], ◌∷◌, Option-cases, String_comparable, ◌≡◌,
  ◌≢◌, refl, ap, ◌∙◌, String, true, false, Bool-cases, List, some, none, inl, inr, is_empty,
}
use aimesh.Base.Maps.{put, lookup}
use aimesh.Base.Sets.{contains}
use aimesh.Base.Outcome.{
  Outcome, ok, err, err-injective, Outcome-cases, IsOk, ok-injective, >>=-eq-ok, or_refuse, refuse,
  wrap_err, wrap_err-eq-ok,
}
use aimesh.Canon.Ledger.{Nomination, ContestedMerge, Ledger, Digest}
use aimesh.Canon.Build.{GateError, build_ledger}
use aimesh.Canon.Build.Gate.{build_ledger-Recorded}
use aimesh.Canon.View.{Member, Cluster, Result, partition_view}
use aimesh.Canon.View.Rows.{partition_view_total}
use aimesh.Canon.Challenge.{ChallengeType, wrong_split, Challenge, validate_challenge}
use aimesh.Canon.Splits.{
  Mapped, ConfirmError, no_nominations, revision_refused, panics, not_present, bad_challenge,
  overruns, assignment_of, apply_splits, map_members, map_clusters, held_ids, member_key, clashes,
}
use aimesh.Canon.Presented.{Presentation}
use aimesh.Canon.Confirmation.{
  Confirmation, Review, misreads, merges_misread, judge_challenge, judge_challenges, revision_job,
  revised_result, no_review, known_ids, confirmation_of, confirm,
}
use aimesh.Canon.Confirmation.Revised.{answered}

-- The calls before the ledger is read end in errors of their own.
map_members-ne-panics :
    (id : String) (ms : List Member) (es : Mapped) → map_members id ms es ≢ err panics
unfolding map_members
map_members-ne-panics id [] es e = cc
map_members-ne-panics id (m ∷ ms) es e =
    let k = member_key m.raw_nomination m.envelope_ref in
    elim (Bool-cases (clashes (lookup k es) id)) [
      | inl h ↦ cc (rw (h, map_members) at e)
      | inr h ↦ map_members-ne-panics id ms (put k id es) (rw (h, map_members) at e)
    ]

map_clusters-ne-panics : (cs : List Cluster) (es : Mapped) → map_clusters cs es ≢ err panics
unfolding map_clusters
map_clusters-ne-panics [] es e = cc
map_clusters-ne-panics (c ∷ cs) es e =
    elim (Outcome-cases (map_members c.canonical_id c.members es)) [
      | inl (es', h) ↦ map_clusters-ne-panics cs es' (rw (h, map_clusters) at e)
      | inr (x, h) ↦
          map_members-ne-panics c.canonical_id c.members es (h ∙ (rw (h, map_clusters) at e))
    ]

held_ids-ne-panics : (i : ℕ) (es : Mapped) (ns : List Nomination) → held_ids i es ns ≢ err panics
unfolding held_ids
held_ids-ne-panics i es [] e = cc
held_ids-ne-panics i es (n ∷ ns) e =
    elim (Option-cases (lookup (member_key n.raw n.envelope_ref) es)) [
      | inl h ↦ cc (rw (h, held_ids) at e)
      | inr (id, h) ↦ elim (Outcome-cases (held_ids (suc i) es ns)) [
        | inl (ids, k) ↦ cc (rw (h, k, held_ids) at e)
        | inr (x, k) ↦ held_ids-ne-panics (suc i) es ns (k ∙ (rw (h, k, held_ids) at e))
      ]
    ]

assignment_of-ne-panics : (res : Result) → assignment_of res ≢ err panics
unfolding assignment_of
assignment_of-ne-panics res e = elim (Outcome-cases (map_clusters res.clusters [])) [
  | inl (es, h) ↦ held_ids-ne-panics 0 es res.nominations (rw h at e)
  | inr (x, h) ↦ map_clusters-ne-panics res.clusters [] (h ∙ ap err (err-injective (rw h at e)))
]

-- Each nomination has one id, so no id stands beyond them.
length-held_ids :
    (i : ℕ) (es : Mapped) (ns : List Nomination) (ids : List String)
    → held_ids i es ns ≡ ok ids
    → length ids ≡ length ns
unfolding held_ids
length-held_ids i es [] ids e = ap length (sym (ok-injective e))
length-held_ids i es (n ∷ ns) ids e =
    let (id, _, e1) =
      >>=-eq-ok (or_refuse (lookup (member_key n.raw n.envelope_ref) es) (not_present i)) _ e in
    let (rest, kept, e2) = >>=-eq-ok (held_ids (suc i) es ns) _ e1 in
    ap length (sym (ok-injective e2)) ∙ ap suc (length-held_ids (suc i) es ns rest kept)

length-assignment_of :
    (res : Result) (assign : List String)
    → assignment_of res ≡ ok assign
    → length assign ≡ length res.nominations
unfolding assignment_of
length-assignment_of res assign e =
    let (es, _, held) = >>=-eq-ok (map_clusters res.clusters []) _ e in
    length-held_ids 0 es res.nominations assign held

overruns-within :
    (p : String → Bool) (ns : List Nomination) (ids : List String)
    → length ids ≤ length ns
    → overruns p ns ids ≡ false
unfolding overruns
overruns-within p ns [] h = refl
overruns-within p [] (id ∷ ids) h = absurd (omega (arith, h))
overruns-within p (n ∷ ns) (id ∷ ids) h = overruns-within p ns ids (omega (arith, h))

module _ (prov : Result) (assign : List String)
    (covered : length assign ≤ length prov.nominations) where
  pub misreads-within : (ch : Challenge) (t : ChallengeType) → misreads prov assign ch t ≡ false
  misreads-within ch wrong_split = overruns-within _ prov.nominations assign covered
  misreads-within ch _ = refl

  merges_misread-within : (ms : List ContestedMerge) → merges_misread prov assign ms ≡ false
  merges_misread-within [] = refl
  merges_misread-within (m ∷ ms) =
      rw (overruns-within (contains m.split_into) prov.nominations assign covered)
        (merges_misread-within ms)

  judge_challenges-ne-panics :
      (known : List String) (chs : List Challenge) (v : Review)
      → judge_challenges known prov assign chs v ≢ err panics
  unfolding judge_challenges
  judge_challenges-ne-panics known [] v e = cc
  judge_challenges-ne-panics known (ch ∷ chs) v e =
      elim (Outcome-cases (validate_challenge known ch)) [
        | inl (u, h) ↦
            judge_challenges-ne-panics known chs (judge_challenge prov assign ch ch.type v)
              (rw (h, misreads-within ch ch.type, judge_challenges) at e)
        | inr (x, h) ↦ cc (rw (h, judge_challenges) at e)
      ]

  judge_challenges_iff :
      (known : List String) (chs : List Challenge) (v : Review)
      → IsOk (judge_challenges known prov assign chs v)
        ↔ All (λ ch. IsOk (validate_challenge known ch)) chs
  unfolding judge_challenges
  judge_challenges_iff known [] v = (λ _. tt, λ _. (v, refl))
  judge_challenges_iff known (ch ∷ chs) v =
      let later = judge_challenges_iff known chs (judge_challenge prov assign ch ch.type v) in
      (
        λ o.
            let (u, valid, e1) =
              >>=-eq-ok (wrap_err bad_challenge (validate_challenge known ch)) _ o.1 in
            let (_, _, rest) = >>=-eq-ok (refuse (misreads prov assign ch ch.type) panics) _ e1 in
            (
              (u, wrap_err-eq-ok bad_challenge (validate_challenge known ch) valid),
              later.0 (o.0, rest),
            ),
        λ h.
            let (out, judged) = later.1 h.1 in (out, rw (h.0.1, misreads-within ch ch.type) judged),
      )

module _ (digest : Digest) (iterate : List String → List String)
    (reason_of : ContestedMerge → String) (prov : Result) (pres : Presentation)
    (chs : List Challenge) where
  abbrev run : Outcome ConfirmError Confirmation
  run = confirm digest iterate reason_of prov pres chs

  empty_run : is_empty prov.nominations ≡ true → run ≡ err no_nominations
  unfolding confirm
  empty_run h = rw h refl

  module _ (some_nomination : is_empty prov.nominations ≡ false) where
    unassigned_run : (e : ConfirmError) → assignment_of prov ≡ err e → run ≡ err e
    unfolding confirm
    unassigned_run e h = rw (some_nomination, h) refl

    module _ (assign : List String) (assigned : assignment_of prov ≡ ok assign) where
      challenged_run :
          (e : ConfirmError)
          → judge_challenges (known_ids prov) prov assign chs no_review ≡ err e
          → run ≡ err e
      unfolding confirm
      challenged_run e h = rw (some_nomination, assigned, h) refl

      covered : length assign ≤ length prov.nominations
      covered = omega (arith, length-assignment_of prov assign assigned)

      module _ (v : Review)
          (judged : judge_challenges (known_ids prov) prov assign chs no_review ≡ ok v) where
        targets_within : overruns (contains v.split_targets) prov.nominations assign ≡ false
        targets_within = overruns-within (contains v.split_targets) prov.nominations assign covered

        -- A result without a ledger makes `confirm` panic where its other checks pass.
        pub confirm-panics : prov.ledger ≡ none → run ≡ err panics
        unfolding confirm
        confirm-panics h = rw (some_nomination, assigned, judged, targets_within, h) refl

        module _ (old : Ledger) (kept : prov.ledger ≡ some old) where
          merges_within : merges_misread prov assign old.contested ≡ false
          merges_within = merges_misread-within prov assign covered old.contested

          refused_run :
              (e : GateError)
              → build_ledger
                  (revision_job digest prov old)
                  (apply_splits prov assign v.split_targets)
                ≡ err e
              → run ≡ err (revision_refused e)
          unfolding confirm
          refused_run e h =
              simp (some_nomination, assigned, judged, targets_within, kept, merges_within, h)

          succeeds :
              (led : Ledger) (clusters : List Cluster)
              → build_ledger
                  (revision_job digest prov old)
                  (apply_splits prov assign v.split_targets)
                ≡ ok led
              → partition_view prov.nominations (apply_splits prov assign v.split_targets)
                ≡ some clusters
              → run
                ≡ ok (
                    confirmation_of prov pres chs
                      (answered digest iterate reason_of prov pres chs assign old v)
                      (revised_result prov led clusters))
          unfolding confirm
          succeeds led clusters h k =
              simp (some_nomination, assigned, judged, targets_within, kept, merges_within, h, k)

          pub confirm_total :
              (led : Ledger)
              → build_ledger
                  (revision_job digest prov old)
                  (apply_splits prov assign v.split_targets)
                ≡ ok led
              → IsOk run
          confirm_total led h =
              let next = apply_splits prov assign v.split_targets in
              let made = build_ledger-Recorded (revision_job digest prov old) next led h in
              let (clusters, viewed) =
                partition_view_total prov.nominations next made.partition.in_range in
              (_, succeeds led clusters h viewed)

          judged-ne-panics : run ≢ err panics
          judged-ne-panics e =
              let next = apply_splits prov assign v.split_targets in
              elim (Outcome-cases (build_ledger (revision_job digest prov old) next)) [
                | inl (led, h) ↦ cc (confirm_total led h).1
                | inr (x, h) ↦ cc (refused_run x h)
              ]

      assigned_panics :
          run ≡ err panics
          → All (λ ch. IsOk (validate_challenge (known_ids prov) ch)) chs × (prov.ledger ≡ none)
      assigned_panics e =
          elim (Outcome-cases (judge_challenges (known_ids prov) prov assign chs no_review)) [
            | inl (v, h) ↦ (
              (judge_challenges_iff prov assign covered (known_ids prov) chs no_review).0 (v, h),
              elim (Option-cases prov.ledger) [
                | inl none_kept ↦ none_kept
                | inr (old, kept) ↦ absurd (judged-ne-panics v h old kept e)
              ],
            )
            | inr (x, h) ↦ absurd (
                judge_challenges-ne-panics prov assign covered (known_ids prov) chs no_review
                  (cc (challenged_run x h)))
          ]

  -- `confirm` panics exactly if the result has no ledger, and has nominations, an assignment of them to
  -- its entities, and only valid challenges; an index is never out of range.
  pub confirm-panics_iff : (confirm digest iterate reason_of prov pres chs ≡ err panics) ↔ (
      (is_empty prov.nominations ≡ false)
      × IsOk (assignment_of prov)
      × All (λ ch. IsOk (validate_challenge (known_ids prov) ch)) chs
      × (prov.ledger ≡ none))
  confirm-panics_iff = (
    λ e. elim (Bool-cases (is_empty prov.nominations)) [
      | inl h ↦ cc (empty_run h)
      | inr h ↦ elim (Outcome-cases (assignment_of prov)) [
        | inl (assign, k) ↦
            let (valid, gone) = assigned_panics h assign k e in (h, (assign, k), valid, gone)
        | inr (x, k) ↦ absurd (assignment_of-ne-panics prov (cc (unassigned_run h x k)))
      ]
    ],
    λ h.
        let (assign, k) = h.1 in
        let covered : length assign ≤ length prov.nominations =
          omega (arith, length-assignment_of prov assign k) in
        let (v, judged) =
          (judge_challenges_iff prov assign covered (known_ids prov) chs no_review).1 h.2 in
        confirm-panics h.0 assign k v judged h.3,
  )
