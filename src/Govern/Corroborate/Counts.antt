-- ===== src/Govern/Corroborate/Counts.antt =====
-- When a corroboration claim is made, what it counts and how it is labelled.
use aimesh.Base.{
  ℕ, ◌<◌, ◌≤◌, ◌≡◌, ◌↔◌, refl, sym, ap, ◌∙◌, String, true, false, Bool-cases, inl, inr, List, [],
  ◌∷◌, map, Option, none, some, length, eqb, arith, String_comparable, ◌==◌, ◌&&◌, All,
}
use aimesh.Base.Order.{contains-sort_texts}
use aimesh.Base.Outcome.{ok, IsOk, >>=-eq-ok, or_refuse-eq-ok, refuse, or_refuse}
use aimesh.Base.Sets.{
  contains, key_set, contains-key_set, distinct_count, distinct_count_mono, distinct_count-le,
}
use aimesh.Schema.{ExplorerIdentity, ExplorerIdentity_comparable}
use aimesh.Canon.Contested.{affects}
use aimesh.Canon.View.{Member, Cluster}
use aimesh.Govern.Policy.{quorum_met, Panel}
use aimesh.Govern.Baseline.{BlindBaseline, size, contains_ref}
use aimesh.Govern.Claim.{Claim, Sensitivity, definitive, corroborated}
use aimesh.Govern.Corroborate.{
  CountInput, no_baseline, find_cluster, blind_members, member_refs, member_sources, label_of,
  sensitivity, corroborate, corroboration,
}
use aimesh.Govern.Corroborate.Ranges.{sensitivity-none_iff}

abbrev pub ids_of : List Cluster → List String
ids_of = map λ c. c.canonical_id

find_cluster-found :
    (id : String) (cs : List Cluster)
    → contains (ids_of cs) id ≡ true
    → (c : Cluster) × (find_cluster id cs ≡ some c)
unfolding find_cluster
find_cluster-found id [] h = cc
find_cluster-found id (c ∷ cs) h = elim (Bool-cases (c.canonical_id == id)) [
  | inl e ↦ (c, rw e refl)
  | inr e ↦ let (d, found) = find_cluster-found id cs (ground arith) in (d, rw e found)
]

find_cluster-contains :
    (id : String) (cs : List Cluster) (c : Cluster)
    → find_cluster id cs ≡ some c
    → contains (ids_of cs) id ≡ true
unfolding find_cluster
find_cluster-contains id [] c e = cc
find_cluster-contains id (d ∷ cs) c e = ground (arith, find_cluster-contains id cs c)

-- What a claim was made from.
abbrev pub MadeFrom : CountInput → Cluster → Claim → Type 0
MadeFrom i cluster c =
    (find_cluster i.canonical_id i.partition.clusters ≡ some cluster) × (c ≡ corroborate i cluster)

corroboration-MadeFrom :
    (i : CountInput) (c : Claim)
    → corroboration i ≡ ok c
    → (0 < size i.baseline) × ((cluster : Cluster) × MadeFrom i cluster c)
unfolding corroboration
corroboration-MadeFrom i c e =
    let (_, g, e2) = >>=-eq-ok (refuse (eqb (size i.baseline) 0) no_baseline) _ e in
    let (cluster, found, last) =
      >>=-eq-ok (or_refuse (find_cluster i.canonical_id i.partition.clusters) _) _ e2 in
    (ground (arith, g), (cluster, (or_refuse-eq-ok _ _ found, cc)))

-- A corroboration claim is made exactly if the baseline has a reference and the partition has a
-- cluster with the id.
pub corroboration_iff :
    (i : CountInput)
    → IsOk (corroboration i)
      ↔ ((0 < size i.baseline) × (contains (ids_of i.partition.clusters) i.canonical_id ≡ true))
unfolding corroboration
corroboration_iff i = (
  λ o.
      let (some_ref, (cluster, made)) = corroboration-MadeFrom i o.0 o.1 in
      (some_ref, find_cluster-contains i.canonical_id i.partition.clusters cluster made.0),
  λ h.
      let (c, found) = find_cluster-found i.canonical_id i.partition.clusters h.1 in
      (corroborate i c, ground (arith, found, h.0)),
)

contains-blind_refs :
    (b : BlindBaseline) (ms : List Member) (ref : String)
    → contains (member_refs (blind_members b ms)) ref
      ≡ (contains_ref b ref && contains (member_refs ms) ref)
contains-blind_refs b [] ref = ground arith
contains-blind_refs b (m ∷ ms) ref =
    ground (arith, contains-blind_refs b ms ref, String_comparable.same_iff m.envelope_ref ref)

contains-blind_sources :
    (b : BlindBaseline) (ms : List Member) (who : ExplorerIdentity)
    → contains (member_sources (blind_members b ms)) who ≡ true
    → contains (member_sources ms) who ≡ true
contains-blind_sources b [] who h = h
contains-blind_sources b (m ∷ ms) who h = ground (arith, contains-blind_sources b ms who)

-- A claim cites exactly the envelopes of its cluster's members that are in the blind baseline.
pub corroboration-cites :
    (i : CountInput) (cluster : Cluster) (c : Claim) (ref : String)
    → find_cluster i.canonical_id i.partition.clusters ≡ some cluster
    → corroboration i ≡ ok c
    → contains c.contributing_source_ids ref
      ≡ (contains_ref i.baseline ref && contains (member_refs cluster.members) ref)
unfolding corroborate
corroboration-cites i cluster c ref found e =
    let (_, (other, made)) = corroboration-MadeFrom i c e in
    let same : other ≡ cluster = cc in
    let cited = blind_members i.baseline cluster.members in
    ap (λ (x : Claim). contains x.contributing_source_ids ref) (made.1 ∙ ap (corroborate i) same)
    ∙ contains-sort_texts (key_set (member_refs cited)) ref
    ∙ contains-key_set (member_refs cited) ref
    ∙ contains-blind_refs i.baseline cluster.members ref

-- Where the panel's size is the number of its members and every nomination of the cluster is a
-- member's, a claim counts no more explorers than the panel has.
pub corroboration-le-selected :
    (i : CountInput) (cluster : Cluster) (c : Claim)
    → find_cluster i.canonical_id i.partition.clusters ≡ some cluster
    → i.panel.selected ≡ length i.panel.members
    → ((who : ExplorerIdentity)
        → contains (member_sources cluster.members) who ≡ true
        → contains i.panel.members who ≡ true)
    → corroboration i ≡ ok c
    → c.value ≤ i.panel.selected
unfolding corroborate
corroboration-le-selected i cluster c found whole sub e =
    let (_, (other, made)) = corroboration-MadeFrom i c e in
    let same : other ≡ cluster = cc in
    let counted = member_sources (blind_members i.baseline cluster.members) in
    let value : c.value ≡ distinct_count counted =
      ap (λ (x : Claim). x.value) (made.1 ∙ ap (corroborate i) same) in
    let fewer =
      distinct_count_mono counted i.panel.members
        λ who h. sub who (contains-blind_sources i.baseline cluster.members who h) in
    omega (arith, value, whole, fewer, distinct_count-le i.panel.members)

label_of-definitive :
    (k : ℕ) (s : Option Sensitivity) (p : Panel)
    → (definitive (label_of k s p) ≡ true) ↔ ((s ≡ none) × (quorum_met p ≡ true))
unfolding label_of
label_of-definitive k none p = ground arith
label_of-definitive k (some s) p = ground arith

label_of-corroborated :
    (k : ℕ) (s : Option Sensitivity) (p : Panel)
    → (label_of k s p ≡ corroborated) ↔ ((s ≡ none) × (quorum_met p ≡ true) × (2 ≤ k))
unfolding label_of
label_of-corroborated k none p = ground arith
label_of-corroborated k (some s) p = ground arith

-- A claim is definitive exactly if no contested mapping affects its subject and the panel's quorum
-- is met, and it says `corroborated` exactly if it also counts two explorers.
pub corroboration-label :
    (i : CountInput) (c : Claim)
    → corroboration i ≡ ok c
    → ((definitive c.label ≡ true)
        ↔ (All (λ m. affects m i.canonical_id ≡ false) i.contested × (quorum_met i.panel ≡ true)))
      × ((c.label ≡ corroborated) ↔ (
          All (λ m. affects m i.canonical_id ≡ false) i.contested
          × (quorum_met i.panel ≡ true)
          × (2 ≤ c.value)))
unfolding corroborate
corroboration-label i c e =
    let (_, (cluster, made)) = corroboration-MadeFrom i c e in
    let none_iff = sensitivity-none_iff i c.value in
    let label : c.label ≡ label_of c.value (sensitivity i c.value) i.panel = rw made.1 refl in
    let sure = label_of-definitive c.value (sensitivity i c.value) i.panel in
    let twice = label_of-corroborated c.value (sensitivity i c.value) i.panel in
    (
      (
        λ h. (none_iff.0 ((sure.0 (rw (sym label) h)).0), (sure.0 (rw (sym label) h)).1),
        λ h. rw label (sure.1 (none_iff.1 h.0, h.1)),
      ),
      (
        λ h. let t = twice.0 (sym label ∙ h) in (none_iff.0 t.0, t.1, t.2),
        λ h. label ∙ twice.1 (none_iff.1 h.0, h.1, h.2),
      ),
    )
