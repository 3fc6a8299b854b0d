-- ===== src/Canon/Ledger.antt =====
-- canon.go: the records, and the append-only ledger with its hash chain (ContestedMerge is of dual.go).
use aimesh.Base.{ℕ, String, List, [], ◌∷◌, ◌++◌, length, eqb, ltb, if◌then◌else◌}
use aimesh.Base.Int.{ℤ}
use aimesh.Schema.{ExplorerIdentity}

pub record Nomination : Type 0 where
  pub raw : String
  pub source_explorer : ExplorerIdentity
  pub envelope_ref : String

pub record ProposedCluster : Type 0 where
  pub canonical_id : String
  pub name : String
  pub members : List ℤ

pub record Proposal : Type 0 where
  pub clusters : List ProposedCluster
  pub proposed_dimensions : List String
  pub coverage_notes : String
  pub decided_by_call : String
  pub decided_by_identity : ExplorerIdentity

pub record Attribution : Type 0 where
  pub call : String
  pub identity : ExplorerIdentity

pub record LedgerRow : Type 0 where
  pub raw_nomination : String
  pub canonical_id : String
  pub source_explorer : ExplorerIdentity
  pub envelope_ref : String
  pub decided_by_call : String
  pub decided_by_identity : ExplorerIdentity
  pub agreed_by : List Attribution
  pub revision : ℕ

pub record ContestedMerge : Type 0 where
  pub proposed_by : Attribution
  pub proposed_canonical_id : String
  pub proposed_name : String
  pub raw_nominations : List String
  pub split_into : List String
  pub resolution : String
  pub rule_version : String

pub record Ledger : Type 0 where
  pub rows : List LedgerRow
  pub contested : List ContestedMerge
  pub revision : ℕ
  pub prior : String
  pub revision_hash : String

-- `hex(sha256(head + json(record)))`, which the host computes and this model does not.
pub record Digest : Type 0 where
  pub row : String → LedgerRow → String
  pub merge : String → ContestedMerge → String

unfoldable pub new_ledger : ℕ → String → Ledger
new_ledger revision prior = record {
  rows = [];
  contested = [];
  revision = revision;
  prior = prior;
  revision_hash = prior;
}

module _ (digest : Digest) where
  unfoldable pub append : Ledger → LedgerRow → Ledger
  append l r = record l { rows = l.rows ++ (r ∷ []); revision_hash = digest.row l.revision_hash r }

  unfoldable pub append_contested : Ledger → ContestedMerge → Ledger
  append_contested l c = record l {
    contested = l.contested ++ (c ∷ []);
    revision_hash = digest.merge l.revision_hash c;
  }

-- `Ledger.Revision`: an unset number is the provisional revision.
unfoldable pub revision_of : Ledger → ℕ
revision_of l = if eqb l.revision 0 then 1 else l.revision

unfoldable pub len : Ledger → ℕ
len l = length l.rows

unfoldable pub revision_if_superseding : Ledger → ℕ
revision_if_superseding l = if ltb 1 l.revision then l.revision else 0
