-- ===== src/Canon/Agreement/Common.antt =====
-- What `CanonicalizeDual` of dual.go returns.
use mathlib.Core.Path.{subst, ap₂}
use aimesh.Base.{
  ℕ, zero, suc, ◌<◌, ◌≡◌, refl, ap, ◌∙◌, String, true, false, Bool-cases, ◌&&◌, List, [], ◌∷◌, ◌++◌,
  map, some, inl, inr, length, All, All-split, arith, ◌==◌, String_comparable,
}
use aimesh.Base.Int.{ℤ, pos, negsuc, ℤ_comparable}
use aimesh.Base.Outcome.{ok}
use aimesh.Base.Sets.{contains, IsUnique}
use aimesh.Base.Text.{trim_space}
use aimesh.Canon.Ledger.{
  Nomination, ProposedCluster, Proposal, Attribution, ContestedMerge, Ledger, Digest,
}
use aimesh.Canon.Build.Members.{InRange, all_members, all_rows}
use aimesh.Canon.Build.Gate.{IsPartition, build_ledger-Recorded}
use aimesh.Canon.Build.Uncontested.{build_ledger-contested}
use aimesh.Canon.View.{Result}
use aimesh.Canon.Dual.{intersect}
use aimesh.Canon.Dual.Housed.{assignments-Assigned}
use aimesh.Canon.Dual.Grouped.{together}
use aimesh.Canon.Dual.Meet.{intersect-together, intersect_once}
use aimesh.Canon.Agreement.{
  append_all_contested, attribution_of, dual_job, contested_merges, Canonicalizer,
  canonicalize_dual, held,
}
use aimesh.Canon.Agreement.Held.{held-together, ids}
use aimesh.Canon.Agreement.Agreed.{
  proposed_ids, contested_merges_total, append_all_contested-contested, append_all_contested-rows,
  Ran, canonicalize_dual-Ran,
}
use aimesh.Canon.Agreement.Apart.{apart_ids, IsJudged, judged_ids}

abbrev trimmed : List ProposedCluster → List String
trimmed = map λ c. trim_space c.canonical_id

ids-absent :
    (id : String) (cs : List ProposedCluster)
    → contains (trimmed cs) (trim_space id) ≡ false
    → contains (ids cs) id ≡ false
ids-absent id [] h = refl
ids-absent id (c ∷ cs) h = elim (Bool-cases (c.canonical_id == id)) [
  | inl e ↦
      let same : c.canonical_id ≡ id = (String_comparable.same_iff c.canonical_id id).0 e in
      let clash =
        (String_comparable.same_iff (trim_space c.canonical_id) (trim_space id)).1
          (ap trim_space same) in
      cc (rw clash at h)
  | inr e ↦ ground (arith, ids-absent id cs)
]

ids-IsUnique : (cs : List ProposedCluster) → IsUnique (trimmed cs) → IsUnique (ids cs)
ids-IsUnique [] u = tt
ids-IsUnique (c ∷ cs) u = (ids-absent c.canonical_id cs u.0, ids-IsUnique cs u.1)

-- A list is held together by itself.
abbrev IsKept : List ProposedCluster → ProposedCluster → Type 0
IsKept all c =
    (i j : ℕ)
    → contains c.members (pos i) ≡ true
    → contains c.members (pos j) ≡ true
    → together all i j ≡ true

IsKept-more :
    (c : ProposedCluster) (all cs : List ProposedCluster)
    → All (IsKept all) cs
    → All (IsKept (c ∷ all)) cs
IsKept-more c all [] h = tt
IsKept-more c all (d ∷ cs) h =
    (λ i j p q. rw (h.0 i j p q) (ground arith), IsKept-more c all cs h.1)

IsKept-all : (cs : List ProposedCluster) → All (IsKept cs) cs
IsKept-all [] = tt
IsKept-all (c ∷ cs) = (λ i j p q. rw (p, q) refl, IsKept-more c cs cs (IsKept-all cs))

member_InRange :
    (noms : List Nomination) (ms : List ℤ) (m : ℤ)
    → All (InRange noms) ms
    → contains ms m ≡ true
    → InRange noms m
member_InRange noms [] m h k = cc
member_InRange noms (x ∷ ms) m h k = elim (Bool-cases (x == m)) [
  | inl e ↦ subst (InRange noms) ((ℤ_comparable.same_iff x m).0 e) h.0
  | inr e ↦ member_InRange noms ms m h.1 (ground arith)
]

InRange-lt : (noms : List Nomination) (i : ℕ) → InRange noms (pos i) → i < length noms
InRange-lt [] i (n, h) = cc
InRange-lt (m ∷ noms) zero r = omega arith
InRange-lt (m ∷ noms) (suc i) r = omega (arith, InRange-lt noms i r)

module _ (noms : List Nomination) (agreed mine other : List ProposedCluster) where
  -- Two nominations have one agreed id exactly where both proposals have them together.
  abbrev IsCommon : Type 0
  IsCommon =
      (i j : ℕ)
      → i < length noms
      → j < length noms
      → (held agreed (pos i) "" == held agreed (pos j) "")
        ≡ (together mine i j && together other i j)

  judge :
      IsCommon
      → (c : ProposedCluster) → IsKept mine c
      → All (InRange noms) c.members
      → IsJudged other agreed c
  judge common c kept range (pos i) (pos j) p q =
      let li = InRange-lt noms i (member_InRange noms c.members (pos i) range p) in
      let lj = InRange-lt noms j (member_InRange noms c.members (pos j) range q) in
      common i j li lj ∙ rw (kept i j p q) refl
  judge common c kept range (negsuc i) n p q =
      cc (member_InRange noms c.members (negsuc i) range p).1
  judge common c kept range (pos i) (negsuc j) p q =
      cc (member_InRange noms c.members (negsuc j) range q).1

  judge_all :
      IsCommon
      → (cs : List ProposedCluster) → All (IsKept mine) cs
      → All (InRange noms) (all_members cs)
      → All (IsJudged other agreed) cs
  judge_all common [] kept range = tt
  judge_all common (c ∷ cs) kept range =
      let (here, later) = All-split (InRange noms) c.members (all_members cs) range in
      (judge common c kept.0 here, judge_all common cs kept.1 later)

  -- The records of one proposal, by cluster.
  records_of :
      (by : Attribution) (out : List ContestedMerge)
      → IsCommon
      → All (InRange noms) (all_members mine)
      → contested_merges noms mine agreed by ≡ some out
      → proposed_ids out ≡ apart_ids other mine
  records_of by out common range found =
      let (out', found', same) = contested_merges_total noms agreed by mine range in
      let alike : out ≡ out' = cc in
      ap proposed_ids alike
      ∙ same
      ∙ judged_ids other agreed mine (judge_all common mine (IsKept-all mine) range)

both_contested :
    (digest : Digest) (xs ys : List ContestedMerge) (led : Ledger)
    → led.contested ≡ []
    → (append_all_contested digest ys (append_all_contested digest xs led)).contested ≡ xs ++ ys
both_contested digest xs ys led none_yet =
    append_all_contested-contested digest ys (append_all_contested digest xs led)
    ∙ ap (λ ms. ms ++ ys)
        (append_all_contested-contested digest xs led ∙ ap (λ ms. ms ++ xs) none_yet)

proposed_ids-append :
    (xs ys : List ContestedMerge) → proposed_ids (xs ++ ys) ≡ proposed_ids xs ++ proposed_ids ys
proposed_ids-append [] ys = refl
proposed_ids-append (x ∷ xs) ys =
    ap (λ ids. x.proposed_canonical_id ∷ ids) (proposed_ids-append xs ys)

-- An exact partition that keeps together what both proposals keep together, the rows of its ledger, and
-- the merges that one proposal has and the other has not.
pub record IsAgreement (digest : Digest) (noms : List Nomination) (a b : Proposal) (r : Result)
    : Type 0 where
  pub partition_a : IsPartition noms a.clusters
  pub partition_b : IsPartition noms b.clusters
  pub agreed : List ProposedCluster
  pub partition : IsPartition noms agreed
  pub common :
      (i j : ℕ)
      → i < length noms
      → j < length noms
      → together agreed i j ≡ (together a.clusters i j && together b.clusters i j)
  pub led : Ledger
  pub recorded : r.ledger ≡ some led
  pub pinned : r.partition_revision_hash ≡ led.revision_hash
  pub rows : led.rows ≡ all_rows (dual_job digest noms a b) agreed
  pub refused :
      proposed_ids led.contested
      ≡ apart_ids b.clusters a.clusters ++ apart_ids a.clusters b.clusters

module _ (digest : Digest) (noms : List Nomination) (first second : Canonicalizer) where
  Ran-IsAgreement :
      (r : Result) (a b : Proposal) (xs ys : List ℕ) (led : Ledger)
      → Ran digest noms first second r a b xs ys led
      → IsAgreement digest noms a b r
  Ran-IsAgreement r a b xs ys led ran =
      let agreed = intersect a.clusters b.clusters xs ys in
      let in_a = (assignments-Assigned noms a.clusters xs ran.valid_a).partition in
      let in_b = (assignments-Assigned noms b.clusters ys ran.valid_b).partition in
      let kept = build_ledger-Recorded (dual_job digest noms a b) agreed led ran.built in
      let u = ids-IsUnique agreed kept.partition.distinct in
      let meet = intersect-together a.clusters b.clusters noms xs ys in
      let once = intersect_once a.clusters b.clusters noms xs ys in
      let common : IsCommon noms agreed a.clusters b.clusters = λ i j li lj.
        held-together agreed i j "" u (once i ran.valid_a ran.valid_b li)
          (once j ran.valid_a ran.valid_b lj)
        ∙ meet i j ran.valid_a ran.valid_b li lj in
      let swapped : IsCommon noms agreed b.clusters a.clusters =
        λ i j li lj. ground (arith, common i j li lj) in
      let chained =
        append_all_contested digest ran.from_b (append_all_contested digest ran.from_a led) in
      let ids_a =
        records_of noms agreed a.clusters b.clusters (attribution_of a) ran.from_a common
          in_a.in_range ran.found_a in
      let ids_b =
        records_of noms agreed b.clusters a.clusters (attribution_of b) ran.from_b swapped
          in_b.in_range ran.found_b in
      let fresh = build_ledger-contested (dual_job digest noms a b) agreed led ran.built in
      record {
        partition_a = in_a;
        partition_b = in_b;
        agreed = agreed;
        partition = kept.partition;
        common = λ i j li lj. meet i j ran.valid_a ran.valid_b li lj;
        led = chained;
        recorded = ap (λ (x : Result). x.ledger) ran.result;
        pinned = ap (λ (x : Result). x.partition_revision_hash) ran.result;
        rows =
            append_all_contested-rows digest ran.from_b (append_all_contested digest ran.from_a led)
            ∙ append_all_contested-rows digest ran.from_a led
            ∙ kept.rows;
        refused =
            ap proposed_ids (both_contested digest ran.from_a ran.from_b led fresh)
            ∙ proposed_ids-append ran.from_a ran.from_b
            ∙ ap₂ ◌++◌ ids_a ids_b;
      }

  -- What `canonicalize_dual` returns stands for an exact partition that has two nominations together
  -- exactly if both proposals have; its ledger has a row for each nomination of it, and a contested
  -- merge for each cluster of a proposal that holds two nominations which the other keeps apart.
  pub canonicalize_dual-IsAgreement :
      (r : Result)
      → canonicalize_dual digest noms first second ≡ ok r
      → (a : Proposal) × (b : Proposal) × (first noms ≡ ok a)
        × (second noms ≡ ok b)
        × IsAgreement digest noms a b r
  canonicalize_dual-IsAgreement r e =
      let (a, b, xs, ys, led, ran) = canonicalize_dual-Ran digest noms first second r e in
      (a, b, ran.asked_a, ran.asked_b, Ran-IsAgreement r a b xs ys led ran)
