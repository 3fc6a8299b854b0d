-- ===== src/Canon/Build/Clusters.antt =====
-- What the loop of `buildLedger` over the clusters admits.
use mathlib.Core.Path.{subst}
use aimesh.Base.{
  ◌≡◌, refl, String, false, List, [], ◌∷◌, map, is_empty, All, All-split, arith, String_comparable,
}
use aimesh.Base.Outcome.{ok, IsOk, >>=-eq-ok}
use aimesh.Base.Sets.{contains, insert, contains-insert, IsUnique}
use aimesh.Base.Text.{trim_space, is_blank}
use aimesh.Canon.Ledger.{ProposedCluster}
use aimesh.Canon.Build.{Building, Job, add_members, add_cluster, add_clusters}
use aimesh.Canon.Build.Members.{
  all_members, InRange, rows_for, all_rows, Added, Added-none, Added-more, add_members-Added,
  add_members_total,
}

-- The key under which the gate compares clusters.
abbrev pub key : ProposedCluster → String
key c = trim_space c.canonical_id

abbrev pub IsUnseen : List String → List ProposedCluster → Type 0
IsUnseen seen cs = All (λ c. contains seen (key c) ≡ false) cs

pub IsUnseen-nil : (cs : List ProposedCluster) → IsUnseen [] cs
IsUnseen-nil [] = tt
IsUnseen-nil (c ∷ cs) = (refl, IsUnseen-nil cs)

pub IsUnseen-insert :
    (id : String) (seen : List String) (cs : List ProposedCluster)
    → IsUnseen (insert id seen) cs
    → IsUnseen seen cs × (contains (map key cs) id ≡ false)
IsUnseen-insert id seen [] h = (tt, refl)
IsUnseen-insert id seen (c ∷ cs) h = ground (
  arith,
  IsUnseen-insert id seen cs h.1,
  contains-insert id (key c) seen,
  String_comparable.same_iff id (key c),
  String_comparable.same_iff (key c) id,
)

pub insert-IsUnseen :
    (id : String) (seen : List String) (cs : List ProposedCluster)
    → IsUnseen seen cs
    → contains (map key cs) id ≡ false
    → IsUnseen (insert id seen) cs
insert-IsUnseen id seen [] h k = tt
insert-IsUnseen id seen (c ∷ cs) h k = ground (
  arith,
  insert-IsUnseen id seen cs h.1,
  contains-insert id (key c) seen,
  String_comparable.same_iff id (key c),
  String_comparable.same_iff (key c) id,
)

module _ (j : Job) where
  -- What the tests on one cluster found.
  pub record Admitted (c : ProposedCluster) (b b' : Building) : Type 0 where
    named : is_blank c.canonical_id ≡ false
    unseen : contains b.seen_id (key c) ≡ false
    backed : is_empty c.members ≡ false
    seen : b'.seen_id ≡ insert (key c) b.seen_id
    added : Added j c.members (rows_for j c c.members) b b'

  abbrev pub entered : ProposedCluster → Building → Building
  entered c b = record b { seen_id = insert (key c) b.seen_id }

  pub add_cluster_cases :
      (c : ProposedCluster) (b b' : Building)
      → add_cluster j c b ≡ ok b'
      → (is_blank c.canonical_id ≡ false)
        × (contains b.seen_id (key c) ≡ false)
        × (is_empty c.members ≡ false)
        × (add_members j c c.members (entered c b) ≡ ok b')
  unfolding add_cluster
  add_cluster_cases c b b' e = ground arith

  add_cluster-Admitted :
      (c : ProposedCluster) (b b' : Building) → add_cluster j c b ≡ ok b' → Admitted c b b'
  add_cluster-Admitted c b b' e =
      let (named, unseen, backed, run) = add_cluster_cases c b b' e in
      let (added, seen) = add_members-Added j c c.members (entered c b) b' run in
      record {
        named = named;
        unseen = unseen;
        backed = backed;
        seen = seen;
        added = record {
          in_range = added.in_range;
          size = added.size;
          counts = added.counts;
          rows = added.rows;
          head = added.head;
        };
      }

  add_cluster_total :
      (c : ProposedCluster) (b : Building)
      → is_blank c.canonical_id ≡ false
      → contains b.seen_id (key c) ≡ false
      → is_empty c.members ≡ false
      → All (InRange j.nominations) c.members
      → IsOk (add_cluster j c b)
  unfolding add_cluster
  add_cluster_total c b named unseen backed range =
      rw (named, unseen, backed)
        (add_members_total j c c.members (record b { seen_id = key c ∷ b.seen_id }) range)

  add_clusters_step :
      (c : ProposedCluster) (cs : List ProposedCluster) (b b₁ : Building)
      → add_cluster j c b ≡ ok b₁
      → add_clusters j (c ∷ cs) b ≡ add_clusters j cs b₁
  unfolding add_clusters
  add_clusters_step c cs b b₁ e = rw e

  pub add_clusters_cases :
      (c : ProposedCluster) (cs : List ProposedCluster) (b b' : Building)
      → add_clusters j (c ∷ cs) b ≡ ok b'
      → (b₁ : Building) × (add_cluster j c b ≡ ok b₁) × (add_clusters j cs b₁ ≡ ok b')
  unfolding add_clusters
  add_clusters_cases c cs b b' e = >>=-eq-ok (add_cluster j c b) (add_clusters j cs) e

  pub add_clusters-nil : (b : Building) → add_clusters j [] b ≡ ok b
  unfolding add_clusters
  add_clusters-nil b = refl

  -- What the tests on all the clusters found.
  pub record AllAdmitted (cs : List ProposedCluster) (b b' : Building) : Type 0 where
    pub named : All (λ c. is_blank c.canonical_id ≡ false) cs
    pub unseen : IsUnseen b.seen_id cs
    pub distinct : IsUnique (map key cs)
    pub backed : All (λ c. is_empty c.members ≡ false) cs
    pub added : Added j (all_members cs) (all_rows j cs) b b'

  pub add_clusters-AllAdmitted :
      (cs : List ProposedCluster) (b b' : Building)
      → add_clusters j cs b ≡ ok b'
      → AllAdmitted cs b b'
  add_clusters-AllAdmitted [] b b' e = record {
    named = tt;
    unseen = tt;
    distinct = tt;
    backed = tt;
    added = subst (Added j [] [] b) (cc (add_clusters-nil b)) (Added-none j b);
  }
  add_clusters-AllAdmitted (c ∷ cs) b b' e =
      let (b₁, first, rest) = add_clusters_cases c cs b b' e in
      let a = add_cluster-Admitted c b b₁ first in
      let others = add_clusters-AllAdmitted cs b₁ b' rest in
      let (unseen, fresh) =
        IsUnseen-insert (key c) b.seen_id cs (subst (λ s. IsUnseen s cs) a.seen others.unseen) in
      record {
        named = (a.named, others.named);
        unseen = (a.unseen, unseen);
        distinct = (fresh, others.distinct);
        backed = (a.backed, others.backed);
        added = Added-more j a.added others.added;
      }

  pub add_clusters_total :
      (cs : List ProposedCluster) (b : Building)
      → All (λ c. is_blank c.canonical_id ≡ false) cs
      → IsUnseen b.seen_id cs
      → IsUnique (map key cs)
      → All (λ c. is_empty c.members ≡ false) cs
      → All (InRange j.nominations) (all_members cs)
      → IsOk (add_clusters j cs b)
  add_clusters_total [] b named unseen distinct backed range = (b, add_clusters-nil b)
  add_clusters_total (c ∷ cs) b named unseen distinct backed range =
      let (here, later) = All-split (InRange j.nominations) c.members (all_members cs) range in
      let (b₁, first) = add_cluster_total c b named.0 unseen.0 backed.0 here in
      let a = add_cluster-Admitted c b b₁ first in
      rw (add_clusters_step c cs b b₁ first) (
        add_clusters_total cs b₁ named.1
          (rw a.seen (insert-IsUnseen (key c) b.seen_id cs unseen.1 distinct.0)) distinct.1 backed.1
          later)
