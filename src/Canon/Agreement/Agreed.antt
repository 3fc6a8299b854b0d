-- ===== src/Canon/Agreement/Agreed.antt =====
-- `CanonicalizeDual` of dual.go: what the agreement of two canonicalizers is, and what it records.
use aimesh.Base.{
  ℕ, ◌≡◌, refl, sym, ap, ◌∙◌, String, true, false, Bool-cases, not, List, [], ◌∷◌, ◌++◌, map, some,
  inl, inr, length, ltb, All, All-split, String_comparable, keep,
}
use mathlib.Core.List.{append-nil, append_assoc}
use aimesh.Base.Int.{ℤ, ℤ_comparable}
use aimesh.Base.Outcome.{
  ok, ok-injective, >>=-eq-ok, wrap_err, wrap_err-eq-ok, or_refuse, or_refuse-eq-ok,
}
use aimesh.Canon.Ledger.{
  Nomination, ProposedCluster, Proposal, Attribution, ContestedMerge, Ledger, Digest,
  append_contested,
}
use aimesh.Canon.Build.{build_ledger}
use aimesh.Canon.Build.Members.{InRange, all_members}
use aimesh.Canon.View.{Cluster, Result, partition_view}
use aimesh.Canon.Dual.{assignments, intersect}
use aimesh.Canon.Agreement.{
  raws_of, landed, contested_merges, append_all_contested, DualError, proposal_failed_a,
  proposal_failed_b, invalid_a, invalid_b, refused, panics, attribution_of, dual_job, dual_result,
  Canonicalizer, canonicalize_dual, refused_merge,
}

abbrev pub proposed_ids : List ContestedMerge → List String
proposed_ids = map λ m. m.proposed_canonical_id

-- The clusters of a proposal that land in several agreed clusters, by id.
abbrev pub split_ids : List ProposedCluster → List ProposedCluster → List String
split_ids agreed cs =
    map (λ c. c.canonical_id) (keep (λ c. not (ltb (length (landed agreed c)) 2)) cs)

module _ (noms : List Nomination) (agreed : List ProposedCluster) (by : Attribution) where
  raws_of_total :
      (ms : List ℤ) → All (InRange noms) ms → (rs : List String) × (raws_of noms ms ≡ some rs)
  unfolding raws_of
  raws_of_total [] h = ([], refl)
  raws_of_total (m ∷ ms) ((n, found), h) =
      let (rs, e) = raws_of_total ms h in (n.raw ∷ rs, rw (found, e, raws_of) refl)

  contested_merges-skip :
      (c : ProposedCluster) (cs : List ProposedCluster)
      → ltb (length (landed agreed c)) 2 ≡ true
      → contested_merges noms (c ∷ cs) agreed by ≡ contested_merges noms cs agreed by
  unfolding contested_merges
  contested_merges-skip c cs b = rw (b, contested_merges) refl

  contested_merges-take :
      (c : ProposedCluster) (cs : List ProposedCluster) (rs : List String)
      (out : List ContestedMerge)
      → ltb (length (landed agreed c)) 2 ≡ false
      → raws_of noms c.members ≡ some rs
      → contested_merges noms cs agreed by ≡ some out
      → contested_merges noms (c ∷ cs) agreed by ≡ some (refused_merge agreed by c rs ∷ out)
  unfolding contested_merges
  contested_merges-take c cs rs out b f e = rw (b, f, e, contested_merges) refl

  contested_merges-nil : contested_merges noms [] agreed by ≡ some []
  unfolding contested_merges
  contested_merges-nil = refl

  split_ids-skip :
      (c : ProposedCluster) (cs : List ProposedCluster)
      → ltb (length (landed agreed c)) 2 ≡ true
      → split_ids agreed (c ∷ cs) ≡ split_ids agreed cs
  split_ids-skip c cs b = rw b refl

  split_ids-take :
      (c : ProposedCluster) (cs : List ProposedCluster)
      → ltb (length (landed agreed c)) 2 ≡ false
      → split_ids agreed (c ∷ cs) ≡ c.canonical_id ∷ split_ids agreed cs
  split_ids-take c cs b = rw b refl

  -- Over indices in range there is one record for each proposed cluster that lands in several.
  pub contested_merges_total :
      (cs : List ProposedCluster)
      → All (InRange noms) (all_members cs)
      → (out : List ContestedMerge) × (contested_merges noms cs agreed by ≡ some out)
        × (proposed_ids out ≡ split_ids agreed cs)
  contested_merges_total [] h = ([], contested_merges-nil, refl)
  contested_merges_total (c ∷ cs) h =
      let (here, later) = All-split (InRange noms) c.members (all_members cs) h in
      let (out, e, same) = contested_merges_total cs later in
      let (rs, f) = raws_of_total c.members here in
      elim (Bool-cases (ltb (length (landed agreed c)) 2)) [
        | inl b ↦ (out, contested_merges-skip c cs b ∙ e, same ∙ sym (split_ids-skip c cs b))
        | inr b ↦ (
          refused_merge agreed by c rs ∷ out,
          contested_merges-take c cs rs out b f e,
          ap (λ ids. c.canonical_id ∷ ids) same ∙ sym (split_ids-take c cs b),
        )
      ]

pub append_all_contested-contested :
    (digest : Digest) (ms : List ContestedMerge) (led : Ledger)
    → (append_all_contested digest ms led).contested ≡ led.contested ++ ms
unfolding append_contested
append_all_contested-contested digest [] led = sym (append-nil led.contested)
append_all_contested-contested digest (m ∷ ms) led =
    append_all_contested-contested digest ms (append_contested digest led m)
    ∙ append_assoc led.contested (m ∷ []) ms

pub append_all_contested-rows :
    (digest : Digest) (ms : List ContestedMerge) (led : Ledger)
    → (append_all_contested digest ms led).rows ≡ led.rows
unfolding append_contested
append_all_contested-rows digest [] led = refl
append_all_contested-rows digest (m ∷ ms) led =
    append_all_contested-rows digest ms (append_contested digest led m)

module _ (digest : Digest) (noms : List Nomination) (first second : Canonicalizer) where
  -- What the calls of a run that succeeds returned.
  pub record Ran (r : Result) (a b : Proposal) (xs ys : List ℕ) (led : Ledger) : Type 0 where
    pub asked_a : first noms ≡ ok a
    pub asked_b : second noms ≡ ok b
    pub valid_a : assignments noms a.clusters ≡ ok xs
    pub valid_b : assignments noms b.clusters ≡ ok ys
    pub built :
        build_ledger (dual_job digest noms a b) (intersect a.clusters b.clusters xs ys) ≡ ok led
    pub from_a : List ContestedMerge
    pub from_b : List ContestedMerge
    pub clusters : List Cluster
    pub found_a :
        contested_merges noms a.clusters (intersect a.clusters b.clusters xs ys) (attribution_of a)
        ≡ some from_a
    pub found_b :
        contested_merges noms b.clusters (intersect a.clusters b.clusters xs ys) (attribution_of b)
        ≡ some from_b
    pub viewed : partition_view noms (intersect a.clusters b.clusters xs ys) ≡ some clusters
    pub result :
        r
        ≡ dual_result noms a b
            (append_all_contested digest from_b (append_all_contested digest from_a led))
            clusters

  pub canonicalize_dual-Ran :
      (r : Result)
      → canonicalize_dual digest noms first second ≡ ok r
      → (a : Proposal) × (b : Proposal) × (xs : List ℕ) × (ys : List ℕ) × (led : Ledger) × Ran r a b
          xs ys led
  unfolding canonicalize_dual
  canonicalize_dual-Ran r e =
      let (a, asked_a, e1) = >>=-eq-ok (wrap_err proposal_failed_a (first noms)) _ e in
      let (b, asked_b, e2) = >>=-eq-ok (wrap_err proposal_failed_b (second noms)) _ e1 in
      let (xs, valid_a, e3) = >>=-eq-ok (wrap_err invalid_a (assignments noms a.clusters)) _ e2 in
      let (ys, valid_b, e4) = >>=-eq-ok (wrap_err invalid_b (assignments noms b.clusters)) _ e3 in
      let agreed = intersect a.clusters b.clusters xs ys in
      let (led, built, e5) =
        >>=-eq-ok (wrap_err refused (build_ledger (dual_job digest noms a b) agreed)) _ e4 in
      let (from_a, found_a, e6) =
        >>=-eq-ok
          (or_refuse {E = DualError} (contested_merges noms a.clusters agreed (attribution_of a))
            panics)
          _ e5 in
      let (from_b, found_b, e7) =
        >>=-eq-ok
          (or_refuse {E = DualError} (contested_merges noms b.clusters agreed (attribution_of b))
            panics)
          _ e6 in
      let (clusters, viewed, e8) =
        >>=-eq-ok (or_refuse {E = DualError} (partition_view noms agreed) panics) _ e7 in
      (
        a,
        b,
        xs,
        ys,
        led,
        record {
          asked_a = wrap_err-eq-ok proposal_failed_a (first noms) asked_a;
          asked_b = wrap_err-eq-ok proposal_failed_b (second noms) asked_b;
          valid_a = wrap_err-eq-ok invalid_a (assignments noms a.clusters) valid_a;
          valid_b = wrap_err-eq-ok invalid_b (assignments noms b.clusters) valid_b;
          built = wrap_err-eq-ok refused (build_ledger (dual_job digest noms a b) agreed) built;
          from_a = from_a;
          from_b = from_b;
          clusters = clusters;
          found_a =
              or_refuse-eq-ok (contested_merges noms a.clusters agreed (attribution_of a)) panics
                found_a;
          found_b =
              or_refuse-eq-ok (contested_merges noms b.clusters agreed (attribution_of b)) panics
                found_b;
          viewed = or_refuse-eq-ok (partition_view noms agreed) panics viewed;
          result = sym (ok-injective e8);
        },
      )
