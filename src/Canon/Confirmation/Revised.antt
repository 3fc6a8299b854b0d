-- ===== src/Canon/Confirmation/Revised.antt =====
-- The partition and the ledger that `Confirm` of confirm.go returns.
use aimesh.Base.{
  ℕ, ◌≡◌, refl, sym, ap, ◌∙◌, String, not, ◌&&◌, ◌||◌, List, [], ◌∷◌, map, some, arith, get_elem?,
  ◌==◌, String_comparable, keep, is_empty,
}
use aimesh.Base.Chain.{chain}
use aimesh.Base.Outcome.{
  ok, ok-injective, refuse, >>=-eq-ok, wrap_err, wrap_err-eq-ok, or_refuse, or_refuse-eq-ok,
}
use aimesh.Base.Sets.{contains, contains-insert}
use aimesh.Canon.Ledger.{ProposedCluster, ContestedMerge, Ledger, Digest}
use aimesh.Canon.Build.{build_ledger}
use aimesh.Canon.Build.Members.{all_rows}
use aimesh.Canon.Build.Gate.{IsPartition, build_ledger-Recorded}
use aimesh.Canon.View.{Cluster, Result, partition_view}
use aimesh.Canon.Dual.Grouped.{together}
use aimesh.Canon.Challenge.{ChallengeType, wrong_merge, Challenge, validate_challenge}
use aimesh.Canon.Splits.{
  ConfirmError, no_nominations, bad_challenge, revision_refused, panics, assignment_of, overruns,
  apply_splits, raw_at,
}
use aimesh.Canon.Splits.Partition.{apply_splits-together}
use aimesh.Canon.Presented.{Presentation}
use aimesh.Canon.Disputed.{is_wrong_merge}
use aimesh.Canon.Confirmation.{
  Confirmation, Review, misreads, merges_misread, judge_challenge, judge_challenges, settle_targets,
  carry_merges, revision_job, revised_result, no_review, known_ids, confirmation_of, confirm,
}

-- The entities that a challenge says group different things.
abbrev pub flagged : List Challenge → List String
flagged chs =
    map (λ (c : Challenge). c.canonical_id) (keep (λ (c : Challenge). is_wrong_merge c.type) chs)

module _ (known : List String) (prov : Result) (assign : List String) where
  judge_one :
      (ch : Challenge) (t : ChallengeType) (v : Review) (id : String)
      → contains (judge_challenge prov assign ch t v).split_targets id
        ≡ (is_wrong_merge t && ch.canonical_id == id || contains v.split_targets id)
  judge_one ch wrong_merge v id = contains-insert ch.canonical_id id v.split_targets
  judge_one ch _ v id = refl

  pub judge_challenges-targets :
      (chs : List Challenge) (v out : Review) (id : String)
      → judge_challenges known prov assign chs v ≡ ok out
      → contains out.split_targets id ≡ (contains (flagged chs) id || contains v.split_targets id)
  unfolding judge_challenges
  judge_challenges-targets [] v out id e =
      ap (λ (x : Review). contains x.split_targets id) (sym (ok-injective e))
  judge_challenges-targets (ch ∷ chs) v out id e =
      let (_, valid, e1) = >>=-eq-ok (wrap_err bad_challenge (validate_challenge known ch)) _ e in
      let (_, inside, rest) = >>=-eq-ok (refuse (misreads prov assign ch ch.type) panics) _ e1 in
      let later =
        judge_challenges-targets chs (judge_challenge prov assign ch ch.type v) out id rest in
      ground (arith, later, judge_one ch ch.type v id)

-- An exact partition at the end of a chain that starts at the prior head, in which two nominations are
-- together exactly if the prior result held them in one entity, and no valid `wrong_merge` names it or
-- their texts are the same.
pub record IsRevision (digest : Digest) (prov : Result) (chs : List Challenge) (c : Confirmation)
    : Type 0 where
  pub assign : List String
  pub assigned : assignment_of prov ≡ ok assign
  pub next : List ProposedCluster
  pub partition : IsPartition prov.nominations next
  pub together_iff :
      (i j : ℕ) (a b : String)
      → get_elem? assign i ≡ some a
      → get_elem? assign j ≡ some b
      → together next i j ≡ (
          a == b
          && (not (contains (flagged chs) a)
              || raw_at prov.nominations i == raw_at prov.nominations j))
  pub old : Ledger
  pub superseded : prov.ledger ≡ some old
  pub led : Ledger
  pub recorded : c.revision.ledger ≡ some led
  pub rows : led.rows ≡ all_rows (revision_job digest prov old) next
  pub chained : led.revision_hash ≡ chain digest.row prov.partition_revision_hash led.rows
  pub pinned : c.revision.partition_revision_hash ≡ led.revision_hash
  pub prior : c.prior_revision_hash ≡ prov.partition_revision_hash

module _ (digest : Digest) (iterate : List String → List String)
    (reason_of : ContestedMerge → String) (prov : Result) (pres : Presentation)
    (chs : List Challenge) where
  abbrev pub answered : List String → Ledger → Review → Review
  answered assign old v =
      carry_merges reason_of prov assign old.contested
        (settle_targets prov assign chs (iterate v.split_targets) v)

  pub confirm_cases :
      (c : Confirmation)
      → confirm digest iterate reason_of prov pres chs ≡ ok c
      → (assign : List String) × (v : Review) × (old : Ledger) × (led : Ledger) × (clusters : List
          Cluster)
        × (assignment_of prov ≡ ok assign)
        × (judge_challenges (known_ids prov) prov assign chs no_review ≡ ok v)
        × (prov.ledger ≡ some old)
        × (build_ledger (revision_job digest prov old) (apply_splits prov assign v.split_targets)
            ≡ ok led)
        × (confirmation_of prov pres chs (answered assign old v) (revised_result prov led clusters)
            ≡ c)
  unfolding confirm
  confirm_cases c e =
      let (_, _, e1) = >>=-eq-ok (refuse (is_empty prov.nominations) no_nominations) _ e in
      let (assign, f, e2) = >>=-eq-ok (assignment_of prov) _ e1 in
      let (v, g, e3) =
        >>=-eq-ok (judge_challenges (known_ids prov) prov assign chs no_review) _ e2 in
      let (_, _, e3') =
        >>=-eq-ok (refuse (overruns (contains v.split_targets) prov.nominations assign) panics) _
          e3 in
      let (old, h, e4) = >>=-eq-ok (or_refuse {E = ConfirmError} prov.ledger panics) _ e3' in
      let (_, _, e4') = >>=-eq-ok (refuse (merges_misread prov assign old.contested) panics) _ e4 in
      let next = apply_splits prov assign v.split_targets in
      let (led, k, e5) =
        >>=-eq-ok (wrap_err revision_refused (build_ledger (revision_job digest prov old) next)) _
          e4' in
      let (clusters, l, e6) =
        >>=-eq-ok (or_refuse {E = ConfirmError} (partition_view prov.nominations next) panics) _
          e5 in
      (
        assign,
        v,
        old,
        led,
        clusters,
        f,
        g,
        or_refuse-eq-ok prov.ledger panics h,
        wrap_err-eq-ok revision_refused (build_ledger (revision_job digest prov old) next) k,
        ok-injective e6,
      )

  -- A confirmation returns an exact partition that merges nothing and splits only what a challenge
  -- names, in a new ledger at the end of a chain that starts at the prior head.
  pub confirm-IsRevision :
      (c : Confirmation)
      → confirm digest iterate reason_of prov pres chs ≡ ok c
      → IsRevision digest prov chs c
  confirm-IsRevision c e =
      let (assign, v, old, led, clusters, f, g, h, k, same) = confirm_cases c e in
      let next = apply_splits prov assign v.split_targets in
      let kept = build_ledger-Recorded (revision_job digest prov old) next led k in
      record {
        assign = assign;
        assigned = f;
        next = next;
        partition = kept.partition;
        together_iff = λ i j a b p q. ground (
          arith,
          apply_splits-together prov assign v.split_targets i j a b p q,
          judge_challenges-targets (known_ids prov) prov assign chs no_review v a g,
        );
        old = old;
        superseded = h;
        led = led;
        recorded = ap (λ (x : Confirmation). x.revision.ledger) (sym same);
        rows = kept.rows;
        chained = kept.head ∙ ap (chain digest.row prov.partition_revision_hash) (sym kept.rows);
        pinned = ap (λ (x : Confirmation). x.revision.partition_revision_hash) (sym same);
        prior = ap (λ (x : Confirmation). x.prior_revision_hash) (sym same);
      }
