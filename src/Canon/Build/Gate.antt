-- ===== src/Canon/Build/Gate.antt =====
-- The surjectivity gate of canon.go: what `buildLedger` accepts, and what it records.
use aimesh.Base.{
  ℕ, zero, suc, ◌<◌, ◌≡◌, ◌↔◌, refl, sym, ap, ◌∙◌, false, List, [], ◌∷◌, map, length, is_empty, All,
  arith, String_comparable,
}
use aimesh.Base.Chain.{chain}
use aimesh.Base.Int.{pos}
use aimesh.Base.Outcome.{ok, IsOk, >>=-eq-ok}
use aimesh.Base.Sets.{IsUnique}
use aimesh.Base.Text.{trim_space, is_blank}
use aimesh.Canon.Ledger.{Nomination, ProposedCluster, Ledger, new_ledger}
use aimesh.Canon.Build.{Building, Job, zeros, add_clusters, check_assigned, build_ledger, start}
use aimesh.Canon.Build.Members.{occurrences, all_members, InRange, count_at, all_rows}
use aimesh.Canon.Build.Clusters.{IsUnseen-nil, add_clusters-AllAdmitted, add_clusters_total}

-- Exact partition: named, distinct, nomination-backed entities that hold each nomination once.
pub record IsPartition (noms : List Nomination) (clusters : List ProposedCluster) : Type 0 where
  pub named : All (λ c. is_blank c.canonical_id ≡ false) clusters
  pub distinct : IsUnique (map (λ c. trim_space c.canonical_id) clusters)
  pub backed : All (λ c. is_empty c.members ≡ false) clusters
  pub in_range : All (InRange noms) (all_members clusters)
  pub exactly_once : (i : ℕ) → i < length noms → occurrences (all_members clusters) (pos i) ≡ 1

check_assigned_sound :
    (k : ℕ) (counts : List ℕ) (i : ℕ)
    → check_assigned k counts ≡ ok tt
    → i < length counts
    → count_at counts i ≡ 1
unfolding check_assigned
check_assigned_sound k [] i e h = absurd (omega arith)
check_assigned_sound k (n ∷ ns) zero e h = ground arith
check_assigned_sound k (n ∷ ns) (suc i) e h = ground (arith, check_assigned_sound (suc k) ns i)

check_assigned_total :
    (k : ℕ) (counts : List ℕ)
    → ((i : ℕ) → i < length counts → count_at counts i ≡ 1)
    → check_assigned k counts ≡ ok tt
unfolding check_assigned
check_assigned_total k [] h = refl
check_assigned_total k (n ∷ ns) h =
    let here : n ≡ 1 = h 0 (omega arith) in
    ground (arith, check_assigned_total (suc k) ns (λ i l. h (suc i) (omega arith)))

length-zeros : (noms : List Nomination) → length (zeros noms) ≡ length noms
length-zeros [] = refl
length-zeros (n ∷ noms) = ap suc (length-zeros noms)

count_at-zeros : (noms : List Nomination) (i : ℕ) → count_at (zeros noms) i ≡ 0
count_at-zeros [] i = refl
count_at-zeros (n ∷ noms) zero = refl
count_at-zeros (n ∷ noms) (suc i) = count_at-zeros noms i

module _ (j : Job) where
  -- What an accepted partition is, and what its ledger records.
  pub record Recorded (clusters : List ProposedCluster) (led : Ledger) : Type 0 where
    pub partition : IsPartition j.nominations clusters
    pub rows : led.rows ≡ all_rows j clusters
    pub head : led.revision_hash ≡ chain j.digest.row j.prior (all_rows j clusters)

  pub build_ledger_cases :
      (clusters : List ProposedCluster) (led : Ledger)
      → build_ledger j clusters ≡ ok led
      → (b : Building) × (add_clusters j clusters (start j) ≡ ok b)
        × (check_assigned 0 b.assigned ≡ ok tt)
        × (b.led ≡ led)
  unfolding build_ledger
  build_ledger_cases clusters led e =
      let (b, run, rest) = >>=-eq-ok (add_clusters j clusters (start j)) _ e in
      let (u, gate, last) = >>=-eq-ok (check_assigned 0 b.assigned) _ rest in (b, run, gate, cc)

  -- Where the gate accepts a partition, it is an exact one, and the ledger has one row for each member
  -- of each cluster in their order, at the end of a chain that starts at the prior head.
  pub build_ledger-Recorded :
      (clusters : List ProposedCluster) (led : Ledger)
      → build_ledger j clusters ≡ ok led
      → Recorded clusters led
  unfolding new_ledger
  build_ledger-Recorded clusters led e =
      let (b, run, gate, last) = build_ledger_cases clusters led e in
      let found = add_clusters-AllAdmitted j clusters (start j) b run in
      let added = found.added in
      record {
        partition = record {
          named = found.named;
          distinct = found.distinct;
          backed = found.backed;
          in_range = added.in_range;
          exactly_once = λ i l.
              let here : i < length (zeros j.nominations) =
                omega (arith, length-zeros j.nominations) in
              omega (
                arith,
                added.counts i here,
                count_at-zeros j.nominations i,
                check_assigned_sound 0 b.assigned i gate (omega (arith, added.size, here)),
              );
        };
        rows = sym (ap (λ (l : Ledger). l.rows) last) ∙ added.rows;
        head = sym (ap (λ (l : Ledger). l.revision_hash) last) ∙ added.head;
      }

  build_ledger_total :
      (clusters : List ProposedCluster)
      → IsPartition j.nominations clusters
      → IsOk (build_ledger j clusters)
  unfolding build_ledger
  build_ledger_total clusters h =
      let (b, run) =
        add_clusters_total j clusters (start j) h.named (IsUnseen-nil clusters) h.distinct h.backed
          h.in_range in
      let found = add_clusters-AllAdmitted j clusters (start j) b run in
      let gate = check_assigned_total 0 b.assigned λ i l. omega (
        arith,
        length-zeros j.nominations,
        found.added.size,
        count_at-zeros j.nominations i,
        found.added.counts i (omega (arith, found.added.size)),
        h.exactly_once i (omega (arith, length-zeros j.nominations, found.added.size)),
      ) in
      (b.led, rw run (rw gate))

  -- The gate accepts the exact partitions of the nominations and nothing else.
  pub build_ledger_iff :
      (clusters : List ProposedCluster)
      → IsOk (build_ledger j clusters) ↔ IsPartition j.nominations clusters
  build_ledger_iff clusters =
      (λ r. (build_ledger-Recorded clusters r.0 r.1).partition, build_ledger_total clusters)
