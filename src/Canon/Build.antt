-- ===== src/Canon/Build.antt =====
-- `buildLedger` of canon.go.
pub mod Members
pub mod Clusters
pub mod Gate
pub mod Pins
pub mod Uncontested
use aimesh.Base.{
  ℕ, zero, suc, String, List, [], ◌∷◌, Option, none, some, get_elem?, eqb, ltb, is_empty,
  if◌then◌else◌, String_comparable,
}
use aimesh.Base.Int.{ℤ, pos, negsuc}
use aimesh.Base.Outcome.{Outcome, ok, err, ◌>>=◌, ◌>>◌, refuse}
use aimesh.Base.Sets.{contains, insert}
use aimesh.Base.Text.{trim_space, is_blank}
use aimesh.Canon.Ledger.{Nomination, ProposedCluster, LedgerRow, Ledger, Digest, new_ledger, append}
use aimesh.Schema.{ExplorerIdentity}

-- The refusals, with what their texts name.
pub data GateError : Type 0 where
  empty_canonical_id : GateError
  duplicate_canonical_id : String → GateError
  no_nominations : String → GateError
  index_out_of_range : String → ℤ → GateError
  dropped : ℕ → GateError
  repeated : ℕ → ℕ → GateError

-- `nominations[idx]`, or nothing where `idx < 0 || idx >= len(nominations)`.
abbrev pub nomination_at : List Nomination → ℤ → Option Nomination
nomination_at noms (pos i) = get_elem? noms i
nomination_at noms (negsuc i) = none

-- `assigned[idx]++`
abbrev pub increment : ℕ → List ℕ → List ℕ
increment i [] = []
increment zero (n ∷ ns) = suc n ∷ ns
increment (suc i) (n ∷ ns) = n ∷ increment i ns

abbrev pub increment_at : ℤ → List ℕ → List ℕ
increment_at (pos i) counts = increment i counts
increment_at (negsuc i) counts = counts

-- `make([]int, len(nominations))`
abbrev pub zeros : List Nomination → List ℕ
zeros [] = []
zeros (n ∷ ns) = 0 ∷ zeros ns

abbrev pub no_identity : ExplorerIdentity
no_identity = record { adapter = ""; model = ""; effort = "" }

-- The variables of the loop.
pub record Building : Type 0 where
  pub led : Ledger
  pub assigned : List ℕ
  pub seen_id : List String

-- What the loop reads and does not change.
pub record Job : Type 0 where
  pub digest : Digest
  pub nominations : List Nomination
  pub revision : ℕ
  pub prior : String
  pub stamp : LedgerRow → LedgerRow

-- The row of one nomination, before and after `stamp`.
abbrev pub plain_row : Job → ProposedCluster → Nomination → LedgerRow
plain_row j c n = record {
  raw_nomination = n.raw;
  canonical_id = c.canonical_id;
  source_explorer = n.source_explorer;
  envelope_ref = n.envelope_ref;
  decided_by_call = "";
  decided_by_identity = no_identity;
  agreed_by = [];
  revision = if ltb 1 j.revision then j.revision else 0;
}

abbrev pub row_for : Job → ProposedCluster → Nomination → LedgerRow
row_for j c n = j.stamp (plain_row j c n)

module _ (j : Job) where
  unfoldable pub add_members : ProposedCluster → List ℤ → Building → Outcome GateError Building
  add_members c [] b = ok b
  add_members c (idx ∷ rest) b = elim (nomination_at j.nominations idx) [
    | none ↦ err (index_out_of_range (trim_space c.canonical_id) idx)
    | some n ↦ add_members c rest (record b {
      led = append j.digest b.led (row_for j c n);
      assigned = increment_at idx b.assigned;
    })
  ]

  unfoldable pub add_cluster : ProposedCluster → Building → Outcome GateError Building
  unfolding add_members
  add_cluster c b = do
    let id = trim_space c.canonical_id
    refuse (is_blank c.canonical_id) empty_canonical_id
    refuse (contains b.seen_id id) (duplicate_canonical_id id)
    refuse (is_empty c.members) (no_nominations id)
    add_members c c.members (record b { seen_id = insert id b.seen_id })

  unfoldable pub add_clusters : List ProposedCluster → Building → Outcome GateError Building
  unfolding add_cluster
  add_clusters [] b = ok b
  add_clusters (c ∷ cs) b = add_cluster c b >>= add_clusters cs

-- The surjectivity gate, from nomination `i` on.
unfoldable pub check_assigned : ℕ → List ℕ → Outcome GateError (Unit {0})
check_assigned i [] = ok tt
check_assigned i (count ∷ counts) =
    let rest = check_assigned (suc i) counts in
    if eqb count 0 then err (dropped i) else if ltb 1 count then err (repeated i count) else rest

-- The variables before the loop.
abbrev pub start : Job → Building
start j = record {
  led = new_ledger j.revision j.prior;
  assigned = zeros j.nominations;
  seen_id = [];
}

unfoldable pub build_ledger : Job → List ProposedCluster → Outcome GateError Ledger
build_ledger j clusters = do
  b ← add_clusters j clusters (start j)
  check_assigned 0 b.assigned
  ok b.led
