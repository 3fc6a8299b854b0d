-- ===== src/Canon/View/Accepts.antt =====
-- `Canonicalize` of canon.go succeeds on exact partitions only, and its view shows the ledger.
use mathlib.Core.Path.{subst}
use aimesh.Base.{◌≡◌, ◌≢◌, refl, sym, ap, ◌∙◌, String, List, map, some, inl, inr, All}
use aimesh.Base.Chain.{chain}
use aimesh.Base.Outcome.{
  Outcome, ok, err, Outcome-cases, IsOk, >>=-eq-ok, wrap_err, wrap_err-eq-ok, or_refuse,
  or_refuse-eq-ok,
}
use aimesh.Canon.Ledger.{Nomination, Proposal, Ledger, Digest}
use aimesh.Canon.Build.{build_ledger, GateError}
use aimesh.Canon.Build.Members.{all_rows}
use aimesh.Canon.Build.Gate.{IsPartition, build_ledger_iff, build_ledger-Recorded}
use aimesh.Canon.View.{
  Cluster, Result, CanonError, proposal_failed, refused, panics, partition_view, canonicalize,
  proposal_job, result_of,
}
use aimesh.Canon.View.Rows.{
  shown_member, shown_row, view_members, partition_view_total, partition_view-rows, heading,
  proposed_heading, IsMarked, partition_view-headings,
}

module _ (digest : Digest) (noms : List Nomination)
    (propose : List Nomination → Outcome String Proposal) where
  -- A proposal that partitions the nominations exactly, its ledger and the result that shows it. The
  -- ledger has a row for each member of each proposed cluster, in their order, chained from nothing;
  -- the clusters are the proposed ones, and their members show what the rows show.
  pub record Canonicalized (p : Proposal) (led : Ledger) (r : Result) : Type 0 where
    pub proposed : propose noms ≡ ok p
    pub partition : IsPartition noms p.clusters
    pub recorded : r.ledger ≡ some led
    pub rows : led.rows ≡ all_rows (proposal_job digest noms p) p.clusters
    pub chained : led.revision_hash ≡ chain digest.row "" led.rows
    pub pinned : r.partition_revision_hash ≡ led.revision_hash
    pub headed : map heading r.clusters ≡ map proposed_heading p.clusters
    pub marked : All IsMarked r.clusters
    pub dimensions : r.proposed_dimensions ≡ p.proposed_dimensions
    pub notes : r.coverage_notes ≡ p.coverage_notes
    pub shown : map shown_member (view_members r.clusters) ≡ map shown_row led.rows

  accepts :
      (p : Proposal) (led : Ledger) (out : List Cluster)
      → propose noms ≡ ok p
      → build_ledger (proposal_job digest noms p) p.clusters ≡ ok led
      → partition_view noms p.clusters ≡ some out
      → canonicalize digest noms propose ≡ ok (result_of p led out)
  unfolding canonicalize
  accepts p led out called built viewed = rw called (rw built (rw viewed))

  canonicalize_cases :
      (r : Result)
      → canonicalize digest noms propose ≡ ok r
      → (p : Proposal) × (led : Ledger) × (out : List Cluster) × (propose noms ≡ ok p)
        × (build_ledger (proposal_job digest noms p) p.clusters ≡ ok led)
        × (partition_view noms p.clusters ≡ some out)
        × (result_of p led out ≡ r)
  unfolding canonicalize
  canonicalize_cases r e =
      let (p, called, e₁) = >>=-eq-ok (wrap_err proposal_failed (propose noms)) _ e in
      let (led, built, e₂) =
        >>=-eq-ok (wrap_err refused (build_ledger (proposal_job digest noms p) p.clusters)) _ e₁ in
      let (out, viewed, e₃) =
        >>=-eq-ok (or_refuse {E = CanonError} (partition_view noms p.clusters) panics) _ e₂ in
      (
        p,
        led,
        out,
        wrap_err-eq-ok proposal_failed (propose noms) called,
        wrap_err-eq-ok refused (build_ledger (proposal_job digest noms p) p.clusters) built,
        or_refuse-eq-ok (partition_view noms p.clusters) panics viewed,
        cc,
      )

  -- A result stands for the canonicalizer's proposal, an exact partition of the nominations: its ledger
  -- has the rows of the proposed clusters' members in their order, its hash is the head of their
  -- chain, and its clusters are the proposed ones (id, name and size, marked where one explorer alone
  -- nominated the members), whose members show what the rows show. The proposed dimensions and the
  -- coverage notes are passed on.
  pub canonicalize-Canonicalized :
      (r : Result)
      → canonicalize digest noms propose ≡ ok r
      → (p : Proposal) × (led : Ledger) × Canonicalized p led r
  canonicalize-Canonicalized r e =
      let (p, led, out, called, built, viewed, same) = canonicalize_cases r e in
      let job = proposal_job digest noms p in
      let kept = build_ledger-Recorded job p.clusters led built in
      let views = partition_view-headings noms p.clusters out viewed in
      (
        p,
        led,
        record {
          proposed = called;
          partition = kept.partition;
          recorded = sym (ap (λ (x : Result). x.ledger) same);
          rows = kept.rows;
          chained = kept.head ∙ ap (chain digest.row "") (sym kept.rows);
          pinned = sym (ap (λ (x : Result). x.partition_revision_hash) same);
          headed = ap (λ (x : Result). map heading x.clusters) (sym same) ∙ views.0;
          marked = subst (λ (x : Result). All IsMarked x.clusters) same views.1;
          dimensions = ap (λ (x : Result). x.proposed_dimensions) (sym same);
          notes = ap (λ (x : Result). x.coverage_notes) (sym same);
          shown =
              ap (λ (x : Result). map shown_member (view_members x.clusters)) (sym same)
              ∙ partition_view-rows job p.clusters out (λ row. refl) viewed
              ∙ ap (map shown_row) (sym kept.rows);
        },
      )

  -- Where the canonicalizer proposes an exact partition, `canonicalize` returns a result.
  pub canonicalize_total :
      (p : Proposal)
      → propose noms ≡ ok p
      → IsPartition noms p.clusters
      → IsOk (canonicalize digest noms propose)
  canonicalize_total p called h =
      let (led, built) = (build_ledger_iff (proposal_job digest noms p) p.clusters).1 h in
      let (out, viewed) = partition_view_total noms p.clusters h.in_range in
      (result_of p led out, accepts p led out called built viewed)

  refuses :
      (p : Proposal) (e : GateError)
      → propose noms ≡ ok p
      → build_ledger (proposal_job digest noms p) p.clusters ≡ err e
      → canonicalize digest noms propose ≡ err (refused e)
  unfolding canonicalize
  refuses p e called h = rw called (rw h)

  fails :
      (e : String)
      → propose noms ≡ err e
      → canonicalize digest noms propose ≡ err (proposal_failed e)
  unfolding canonicalize
  fails e h = rw h

  -- `canonicalize` never reads outside the nominations, whatever the canonicalizer proposes.
  pub canonicalize-ne-panics : canonicalize digest noms propose ≢ err panics
  canonicalize-ne-panics e = elim (Outcome-cases (propose noms)) [
    | inr (x, h) ↦ cc (fails x h)
    | inl (p, called) ↦
        elim (Outcome-cases (build_ledger (proposal_job digest noms p) p.clusters)) [
          | inr (x, h) ↦ cc (refuses p x called h)
          | inl (led, built) ↦
              let kept = build_ledger-Recorded (proposal_job digest noms p) p.clusters led built in
              cc (canonicalize_total p called kept.partition).1
        ]
  ]
