-- ===== src/Canon/Agreement/Total.antt =====
-- The runs of `CanonicalizeDual` (dual.go), by the call that ends them.
use aimesh.Base.{◌≡◌, ◌≢◌, refl, String, List, some, inl, inr, ℕ}
use aimesh.Base.Outcome.{Outcome, ok, err, Outcome-cases, IsOk}
use aimesh.Canon.Ledger.{Nomination, ProposedCluster, Proposal, ContestedMerge, Ledger, Digest}
use aimesh.Canon.Build.{GateError, build_ledger}
use aimesh.Canon.Build.Gate.{build_ledger-Recorded}
use aimesh.Canon.View.{Cluster, Result, partition_view}
use aimesh.Canon.View.Rows.{partition_view_total}
use aimesh.Canon.Dual.{AssignError, assignments, intersect}
use aimesh.Canon.Dual.Housed.{assignments-Assigned}
use aimesh.Canon.Agreement.{
  contested_merges, append_all_contested, DualError, proposal_failed_a, proposal_failed_b,
  invalid_a, invalid_b, refused, panics, attribution_of, dual_job, dual_result, Canonicalizer,
  canonicalize_dual,
}
use aimesh.Canon.Agreement.Agreed.{contested_merges_total}

module _ (digest : Digest) (noms : List Nomination) (first second : Canonicalizer) where
  abbrev run : Outcome DualError Result
  run = canonicalize_dual digest noms first second

  fails_a : (e : String) → first noms ≡ err e → run ≡ err (proposal_failed_a e)
  unfolding canonicalize_dual
  fails_a e h = rw h refl

  module _ (a : Proposal) (asked_a : first noms ≡ ok a) where
    fails_b : (e : String) → second noms ≡ err e → run ≡ err (proposal_failed_b e)
    unfolding canonicalize_dual
    fails_b e h = rw (asked_a, h) refl

    module _ (b : Proposal) (asked_b : second noms ≡ ok b) where
      bad_a : (e : AssignError) → assignments noms a.clusters ≡ err e → run ≡ err (invalid_a e)
      unfolding canonicalize_dual
      bad_a e h = rw (asked_a, asked_b, h) refl

      bad_b :
          (xs : List ℕ) (e : AssignError)
          → assignments noms a.clusters ≡ ok xs
          → assignments noms b.clusters ≡ err e
          → run ≡ err (invalid_b e)
      unfolding canonicalize_dual
      bad_b xs e h k = rw (asked_a, asked_b, h, k) refl

      module _ (xs ys : List ℕ) (valid_a : assignments noms a.clusters ≡ ok xs)
          (valid_b : assignments noms b.clusters ≡ ok ys) where
        abbrev agreed : List ProposedCluster
        agreed = intersect a.clusters b.clusters xs ys

        clash :
            (e : GateError)
            → build_ledger (dual_job digest noms a b) agreed ≡ err e
            → run ≡ err (refused e)
        unfolding canonicalize_dual
        clash e h = rw (asked_a, asked_b, valid_a, valid_b, h) refl

        succeeds :
            (led : Ledger) (from_a from_b : List ContestedMerge) (out : List Cluster)
            → build_ledger (dual_job digest noms a b) agreed ≡ ok led
            → contested_merges noms a.clusters agreed (attribution_of a) ≡ some from_a
            → contested_merges noms b.clusters agreed (attribution_of b) ≡ some from_b
            → partition_view noms agreed ≡ some out
            → run
              ≡ ok (
                  dual_result noms a b
                    (append_all_contested digest from_b (append_all_contested digest from_a led))
                    out)
        unfolding canonicalize_dual
        succeeds led from_a from_b out h i j k =
            rw (asked_a, asked_b, valid_a, valid_b, h, i, j, k) refl

        -- Two exact partitions whose agreement the gate accepts give a result.
        pub canonicalize_dual_total :
            (led : Ledger) → build_ledger (dual_job digest noms a b) agreed ≡ ok led → IsOk run
        canonicalize_dual_total led h =
            let kept = build_ledger-Recorded (dual_job digest noms a b) agreed led h in
            let in_a = (assignments-Assigned noms a.clusters xs valid_a).partition in
            let in_b = (assignments-Assigned noms b.clusters ys valid_b).partition in
            let (from_a, found_a, _) =
              contested_merges_total noms agreed (attribution_of a) a.clusters in_a.in_range in
            let (from_b, found_b, _) =
              contested_merges_total noms agreed (attribution_of b) b.clusters in_b.in_range in
            let (out, viewed) = partition_view_total noms agreed kept.partition.in_range in
            (_, succeeds led from_a from_b out h found_a found_b viewed)

        agreed-ne-panics : run ≢ err panics
        agreed-ne-panics e = elim (Outcome-cases (build_ledger (dual_job digest noms a b) agreed)) [
          | inr (x, h) ↦ cc (clash x h)
          | inl (led, h) ↦ cc (canonicalize_dual_total led h).1
        ]

      valid-ne-panics : run ≢ err panics
      valid-ne-panics e = elim (Outcome-cases (assignments noms a.clusters)) [
        | inr (x, h) ↦ cc (bad_a x h)
        | inl (xs, h) ↦ elim (Outcome-cases (assignments noms b.clusters)) [
          | inr (x, k) ↦ cc (bad_b xs x h k)
          | inl (ys, k) ↦ agreed-ne-panics xs ys h k e
        ]
      ]

  -- `canonicalize_dual` never reads outside a list, whatever the two canonicalizers answer.
  pub canonicalize_dual-ne-panics : canonicalize_dual digest noms first second ≢ err panics
  canonicalize_dual-ne-panics e = elim (Outcome-cases (first noms)) [
    | inr (x, h) ↦ cc (fails_a x h)
    | inl (a, h) ↦ elim (Outcome-cases (second noms)) [
      | inr (x, k) ↦ cc (fails_b a h x k)
      | inl (b, k) ↦ valid-ne-panics a h b k e
    ]
  ]
