-- ===== src/Canon/Dual.antt =====
-- dual.go: two canonicalizers propose partitions, and the host keeps the merges on which both agree.
pub mod Assigned
pub mod Filled
pub mod Housed
pub mod Grouped
pub mod Meet
use aimesh.Base.{
  ℕ, zero, suc, ◌-◌, String, Bool, true, false, not, ◌&&◌, ◌||◌, List, [], ◌∷◌, ◌++◌, map, Option,
  none, some, get_elem?, length, is_empty, keep, eqb, ltb, ◌==◌, Comparable, ℕ_comparable,
  String_comparable, if◌then◌else◌, ◌≡◌, ◌↔◌, arith,
}
use aimesh.Base.Groups.{group}
use aimesh.Base.Int.{ℤ, pos, negsuc}
use aimesh.Base.Number.{◌<>◌}
use aimesh.Base.Order.{sort_texts}
use aimesh.Base.Outcome.{Outcome, ok, err, ◌>>=◌, ◌>>◌, refuse, or_refuse, wrap_err}
use aimesh.Base.Sets.{contains, insert, key_set}
use aimesh.Base.Text.{trim_space, is_blank}
use aimesh.Canon.Ledger.{
  Nomination, ProposedCluster, Proposal, Attribution, ContestedMerge, LedgerRow, Ledger, Digest,
  append_contested,
}
use aimesh.Canon.Build.{GateError, Job, nomination_at, build_ledger}
use aimesh.Canon.View.{Result, partition_view}

abbrev pub dual_rule_version : String
dual_rule_version = "host-dual-merge-agreement@v1"

abbrev pub resolution_split : String
resolution_split = "split"

-- The refusals of `assignments`, with what their texts name.
pub data AssignError : Type 0 where
  empty_id : ℕ → AssignError
  duplicate_id no_members : String → AssignError
  outside : String → ℤ → AssignError
  in_two : ℤ → AssignError
  never : ℕ → AssignError

-- Cluster indices by nomination; nothing stands for -1.
abbrev pub Homes : Type 0
Homes = List (Option ℕ)

abbrev pub unassigned : List Nomination → Homes
unassigned [] = []
unassigned (n ∷ ns) = none ∷ unassigned ns

-- `idx >= 0 && idx < n`
abbrev pub in_range : ℕ → ℤ → Bool
in_range n (pos i) = ltb i n
in_range n (negsuc i) = false

-- `out[idx]`, which the code reads in range only.
abbrev pub home_of : Homes → ℕ → Option ℕ
home_of [] i = none
home_of (h ∷ hs) zero = h
home_of (h ∷ hs) (suc i) = home_of hs i

abbrev pub home_at : Homes → ℤ → Option ℕ
home_at out (pos i) = home_of out i
home_at out (negsuc i) = none

-- `out[idx] = ci`
abbrev pub settle : ℕ → ℕ → Homes → Homes
settle ci i [] = []
settle ci zero (h ∷ hs) = some ci ∷ hs
settle ci (suc i) (h ∷ hs) = h ∷ settle ci i hs

abbrev pub settle_at : ℕ → ℤ → Homes → Homes
settle_at ci (pos i) out = settle ci i out
settle_at ci (negsuc i) out = out

abbrev pub is_some : Option ℕ → Bool
is_some none = false
is_some (some x) = true

-- The inner loop of `assignments`: the members of cluster `ci`.
unfoldable pub assign_members : String → ℕ → List ℤ → Homes → Outcome AssignError Homes
assign_members id ci [] out = ok out
assign_members id ci (idx ∷ rest) out = do
  refuse (not (in_range (length out) idx)) (outside id idx)
  refuse (is_some (home_at out idx)) (in_two idx)
  assign_members id ci rest (settle_at ci idx out)

-- The outer loop, from cluster `ci` on.
unfoldable pub assign_clusters :
    ℕ → List ProposedCluster → List String → Homes → Outcome AssignError Homes
unfolding assign_members
assign_clusters ci [] seen out = ok out
assign_clusters ci (c ∷ cs) seen out = do
  refuse (is_blank c.canonical_id) (empty_id ci)
  refuse (contains seen (trim_space c.canonical_id)) (duplicate_id (trim_space c.canonical_id))
  refuse (is_empty c.members) (no_members (trim_space c.canonical_id))
  out' ← assign_members (trim_space c.canonical_id) ci c.members out
  assign_clusters (suc ci) cs (insert (trim_space c.canonical_id) seen) out'

-- The last loop: every nomination has a cluster.
unfoldable pub settled : ℕ → Homes → Outcome AssignError (List ℕ)
settled i [] = ok []
settled i (none ∷ hs) = err (never i)
settled i (some ci ∷ hs) = do rest ← settled (suc i) hs; ok (ci ∷ rest)

unfoldable pub assignments : List Nomination → List ProposedCluster → Outcome AssignError (List ℕ)
unfolding assign_clusters settled
assignments noms clusters = do out ← assign_clusters 0 clusters [] (unassigned noms); settled 0 out

-- `key{ai, bi}`
pub record Class : Type 0 where
  pub ai : ℕ
  pub bi : ℕ

abbrev pub same_class : Class → Class → Bool
same_class p q = eqb p.ai q.ai && eqb p.bi q.bi

pub same_class_iff : (p q : Class) → (same_class p q ≡ true) ↔ (p ≡ q)
same_class_iff p q = ground arith

instance abbrev pub Class_comparable : Comparable Class
Class_comparable = record { same = same_class; same_iff = same_class_iff }

-- `key{assignA[i], assignB[i]}` beside `i`, from nomination `i` on.
abbrev pub classes_from : ℕ → List ℕ → List ℕ → List (Class × ℕ)
classes_from i [] bs = []
classes_from i (a ∷ as') [] = []
classes_from i (a ∷ as') (b ∷ bs) = (record { ai = a; bi = b }, i) ∷ classes_from (suc i) as' bs

-- `splits[ai]`: how many classes a cluster of the first proposal became.
abbrev pub splits : ℕ → List (Class × List ℕ) → ℕ
splits ai [] = 0
splits ai (g ∷ gs) = let rest = splits ai gs in if eqb g.0.ai ai then suc rest else rest

abbrev pub no_cluster : ProposedCluster
no_cluster = record { canonical_id = ""; name = ""; members = [] }

-- `a[k.ai]`, which is in range where `assignments` gave the index.
abbrev pub cluster_at : List ProposedCluster → ℕ → ProposedCluster
cluster_at [] i = no_cluster
cluster_at (c ∷ cs) zero = c
cluster_at (c ∷ cs) (suc i) = cluster_at cs i

abbrev pub positions : List ℕ → List ℤ
positions = map pos

unfoldable pub agreed_cluster :
    List ProposedCluster
    → List ProposedCluster
    → List (Class × List ℕ)
    → Class × List ℕ
    → ProposedCluster
unfolding ◌<>◌
agreed_cluster a b gs g =
    let ac = cluster_at a g.0.ai in
    let bc = cluster_at b g.0.bi in
    let split = ltb 1 (splits g.0.ai gs) in
    record {
      canonical_id = if split then ac.canonical_id <> ("~" <> bc.canonical_id) else ac.canonical_id;
      name = if split then ac.name <> (" / " <> bc.name) else ac.name;
      members = positions g.1;
    }

abbrev pub agreed_classes : List ℕ → List ℕ → List (Class × List ℕ)
agreed_classes as' bs = group (classes_from 0 as' bs)

unfoldable pub intersect :
    List ProposedCluster → List ProposedCluster → List ℕ → List ℕ → List ProposedCluster
unfolding agreed_cluster
intersect a b as' bs = let gs = agreed_classes as' bs in map (agreed_cluster a b gs) gs
