-- ===== src/Canon/View/Rows.antt =====
-- The view shows what the ledger records: the same nominations, in the same order, under the same ids.
use mathlib.Core.Path.{ap₂, subst}
use mathlib.Core.List.{map-append}
use aimesh.Base.{
  ℕ, suc, ◌≡◌, refl, sym, ap, ◌∙◌, String, Bool, List, [], ◌∷◌, ◌++◌, map, some, Option-cases, inl,
  inr, length, length-map, eqb, All, All-split, arith,
}
use aimesh.Base.Int.{ℤ}
use aimesh.Base.Sets.{distinct_count}
use aimesh.Schema.{ExplorerIdentity, ExplorerIdentity_comparable}
use aimesh.Canon.Ledger.{Nomination, ProposedCluster, LedgerRow}
use aimesh.Canon.Build.{Job, nomination_at, plain_row}
use aimesh.Canon.Build.Members.{InRange, all_members, rows_for, rows_for-cons, all_rows}
use aimesh.Canon.View.{
  Member, Cluster, nominations_at, member_of, cluster_of, sources_of, is_single, partition_view,
}

-- What a member shows, and the same of a row.
pub record Shown : Type 0 where
  pub id : String
  pub raw : String
  pub explorer : ExplorerIdentity
  pub ref : String

abbrev pub shown_member : Member → Shown
shown_member m = record {
  id = m.canonical_id;
  raw = m.raw_nomination;
  explorer = m.source_explorer;
  ref = m.envelope_ref;
}

abbrev pub shown_row : LedgerRow → Shown
shown_row r = record {
  id = r.canonical_id;
  raw = r.raw_nomination;
  explorer = r.source_explorer;
  ref = r.envelope_ref;
}

abbrev pub view_members : List Cluster → List Member
view_members [] = []
view_members (c ∷ cs) = c.members ++ view_members cs

nominations_at_total :
    (noms : List Nomination) (ms : List ℤ)
    → All (InRange noms) ms
    → (ns : List Nomination) × (nominations_at noms ms ≡ some ns)
unfolding nominations_at
nominations_at_total noms [] h = ([], refl)
nominations_at_total noms (m ∷ ms) h =
    let (n, found) = h.0 in
    let (ns, rest) = nominations_at_total noms ms h.1 in (n ∷ ns, ground arith)

pub partition_view_total :
    (noms : List Nomination) (cs : List ProposedCluster)
    → All (InRange noms) (all_members cs)
    → (out : List Cluster) × (partition_view noms cs ≡ some out)
unfolding partition_view
partition_view_total noms [] h = ([], refl)
partition_view_total noms (c ∷ cs) h =
    let (here, later) = All-split (InRange noms) c.members (all_members cs) h in
    let (ns, found) = nominations_at_total noms c.members here in
    let (out, rest) = partition_view_total noms cs later in (cluster_of c ns ∷ out, ground arith)

nominations_at-cons :
    (noms : List Nomination) (m : ℤ) (ms : List ℤ) (ns : List Nomination)
    → nominations_at noms (m ∷ ms) ≡ some ns
    → (n : Nomination) × (rest : List Nomination) × (nomination_at noms m ≡ some n)
      × (nominations_at noms ms ≡ some rest)
      × (n ∷ rest ≡ ns)
unfolding nominations_at
nominations_at-cons noms m ms ns e = elim (Option-cases (nomination_at noms m)) [
  | inl gone ↦ absurd (ground arith)
  | inr (n, here) ↦ elim (Option-cases (nominations_at noms ms)) [
    | inl gone ↦ absurd (ground arith)
    | inr (rest, later) ↦ (n, rest, here, later, ground arith)
  ]
]

nominations_at-rows :
    (j : Job) (c : ProposedCluster) (single : Bool) (ms : List ℤ) (ns : List Nomination)
    → ((r : LedgerRow) → shown_row (j.stamp r) ≡ shown_row r)
    → nominations_at j.nominations ms ≡ some ns
    → map shown_member (map (member_of c.canonical_id single) ns) ≡ map shown_row (rows_for j c ms)
nominations_at-rows j c single [] ns h e = (unfold nominations_at in ground arith)
nominations_at-rows j c single (m ∷ ms) ns h e =
    let (n, rest, here, later, same) = nominations_at-cons j.nominations m ms ns e in
    let ih = nominations_at-rows j c single ms rest h later in
    rw (← same, rows_for-cons j c m ms n here) (ap₂ ◌∷◌ (sym (h (plain_row j c n))) ih)

partition_view-cons :
    (noms : List Nomination) (c : ProposedCluster) (cs : List ProposedCluster) (out : List Cluster)
    → partition_view noms (c ∷ cs) ≡ some out
    → (ns : List Nomination) × (rest : List Cluster) × (nominations_at noms c.members ≡ some ns)
      × (partition_view noms cs ≡ some rest)
      × (cluster_of c ns ∷ rest ≡ out)
unfolding partition_view
partition_view-cons noms c cs out e = elim (Option-cases (nominations_at noms c.members)) [
  | inl gone ↦ absurd (ground arith)
  | inr (ns, here) ↦ elim (Option-cases (partition_view noms cs)) [
    | inl gone ↦ absurd (ground arith)
    | inr (rest, later) ↦ (ns, rest, here, later, ground arith)
  ]
]

-- The members of the view, read from front to back, show what the rows of the ledger show.
pub partition_view-rows :
    (j : Job) (cs : List ProposedCluster) (out : List Cluster)
    → ((r : LedgerRow) → shown_row (j.stamp r) ≡ shown_row r)
    → partition_view j.nominations cs ≡ some out
    → map shown_member (view_members out) ≡ map shown_row (all_rows j cs)
partition_view-rows j [] out h e = (unfold partition_view in ground arith)
partition_view-rows j (c ∷ cs) out h e =
    let (ns, rest, here, later, same) = partition_view-cons j.nominations c cs out e in
    let ih = partition_view-rows j cs rest h later in
    let head = nominations_at-rows j c (is_single ns) c.members ns h here in
    rw (← same, map-append, map-append) (ap₂ ◌++◌ head ih)

-- What a cluster shows beside its members, and the same of a proposed one.
pub record Heading : Type 0 where
  pub id : String
  pub name : String
  pub size : ℕ

abbrev pub heading : Cluster → Heading
heading c = record { id = c.canonical_id; name = c.name; size = length c.members }

abbrev pub proposed_heading : ProposedCluster → Heading
proposed_heading c = record { id = c.canonical_id; name = c.name; size = length c.members }

-- A cluster and its members are marked exactly where one explorer alone nominated them.
abbrev pub IsMarked : Cluster → Type 0
IsMarked c =
    (c.single_source ≡ eqb (distinct_count (map (λ m. m.source_explorer) c.members)) 1)
    × All (λ m. m.single_source ≡ c.single_source) c.members

length-nominations_at :
    (noms : List Nomination) (ms : List ℤ) (ns : List Nomination)
    → nominations_at noms ms ≡ some ns
    → length ns ≡ length ms
length-nominations_at noms [] ns e = (unfold nominations_at in ground arith)
length-nominations_at noms (m ∷ ms) ns e =
    let (n, rest, here, later, same) = nominations_at-cons noms m ms ns e in
    ap length (sym same) ∙ ap suc (length-nominations_at noms ms rest later)

sources-member_of :
    (id : String) (single : Bool) (ns : List Nomination)
    → map (λ m. m.source_explorer) (map (member_of id single) ns) ≡ sources_of ns
sources-member_of id single [] = refl
sources-member_of id single (n ∷ ns) = ap (◌∷◌ n.source_explorer) (sources-member_of id single ns)

single-member_of :
    (id : String) (single : Bool) (ns : List Nomination)
    → All (λ m. m.single_source ≡ single) (map (member_of id single) ns)
single-member_of id single [] = tt
single-member_of id single (n ∷ ns) = (refl, single-member_of id single ns)

cluster_of-IsMarked : (c : ProposedCluster) (ns : List Nomination) → IsMarked (cluster_of c ns)
cluster_of-IsMarked c ns = (
  ap (λ xs. eqb (distinct_count xs) 1) (sym (sources-member_of c.canonical_id (is_single ns) ns)),
  single-member_of c.canonical_id (is_single ns) ns,
)

heading-cluster_of :
    (c : ProposedCluster) (ns : List Nomination)
    → length ns ≡ length c.members
    → heading (cluster_of c ns) ≡ proposed_heading c
heading-cluster_of c ns h =
    ap (λ n. record { id = c.canonical_id; name = c.name; size = n })
      (length-map (member_of c.canonical_id (is_single ns)) ns ∙ h)

-- The view has the clusters that were proposed, each of its size, and marks those of one explorer.
pub partition_view-headings :
    (noms : List Nomination) (cs : List ProposedCluster) (out : List Cluster)
    → partition_view noms cs ≡ some out
    → (map heading out ≡ map proposed_heading cs) × All IsMarked out
partition_view-headings noms [] out e =
    let same : [] ≡ out = (unfold partition_view in ground arith) in
    subst (λ (x : List Cluster). (map heading x ≡ []) × All IsMarked x) same (refl, tt)
partition_view-headings noms (c ∷ cs) out e =
    let (ns, rest, here, later, same) = partition_view-cons noms c cs out e in
    let (ih, marks) = partition_view-headings noms cs rest later in
    subst (λ (x : List Cluster). (map heading x ≡ map proposed_heading (c ∷ cs)) × All IsMarked x)
      same
      (
        ap₂ ◌∷◌ (heading-cluster_of c ns (length-nominations_at noms c.members ns here)) ih,
        (cluster_of-IsMarked c ns, marks),
      )
