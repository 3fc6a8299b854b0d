-- ===== src/Canon/Splits.antt =====
-- confirm.go: the held partition of a result, and the partition after the splits (`assignmentOf`, `applySplits`).
pub mod Partition
use aimesh.Base.{
  ℕ, zero, suc, String, Bool, true, false, not, ◌&&◌, ◌||◌, List, [], ◌∷◌, ◌++◌, map, Option, none,
  some, get_elem?, length, ltb, ◌==◌, String_comparable, if◌then◌else◌,
}
use aimesh.Base.Groups.{group}
use aimesh.Base.Int.{ℤ, pos}
use aimesh.Base.Maps.{put, lookup}
use aimesh.Base.Number.{◌<>◌, decimal}
use aimesh.Base.Outcome.{Outcome, ok, err, ◌>>=◌, ◌>>◌, refuse, or_refuse}
use aimesh.Base.Sets.{contains}
use aimesh.Canon.Ledger.{Nomination, ProposedCluster}
use aimesh.Canon.Build.{GateError}
use aimesh.Canon.View.{Member, Cluster, Result}
use aimesh.Canon.Challenge.{ChallengeError}
use aimesh.Canon.Dual.{positions}

-- How `Confirm` ends without a confirmation, with what the texts name.
pub data ConfirmError : Type 0 where
  no_nominations : ConfirmError
  inconsistent : String → String → String → String → ConfirmError
  not_present : ℕ → ConfirmError
  bad_challenge : ChallengeError → ConfirmError
  revision_refused : GateError → ConfirmError
  -- Go's run-time panic
  panics : ConfirmError

-- `byKey`
abbrev pub Mapped : Type 0
Mapped = List (String × String)

unfoldable pub member_key : String → String → String
unfolding ◌<>◌
member_key raw ref = raw <> ("\0" <> ref)

-- `dup && prev != c.CanonicalID`
abbrev pub clashes : Option String → String → Bool
clashes none id = false
clashes (some prev) id = not (prev == id)

abbrev pub or_empty : Option String → String
or_empty none = ""
or_empty (some s) = s

-- The inner loop of `assignmentOf`.
unfoldable pub map_members : String → List Member → Mapped → Outcome ConfirmError Mapped
map_members id [] es = ok es
map_members id (m ∷ ms) es = do
  let k = member_key m.raw_nomination m.envelope_ref
  refuse (clashes (lookup k es) id)
      (inconsistent m.raw_nomination m.envelope_ref (or_empty (lookup k es)) id)
  map_members id ms (put k id es)

unfoldable pub map_clusters : List Cluster → Mapped → Outcome ConfirmError Mapped
unfolding map_members
map_clusters [] es = ok es
map_clusters (c ∷ cs) es = map_members c.canonical_id c.members es >>= map_clusters cs

-- The last loop, from nomination `i` on.
unfoldable pub held_ids : ℕ → Mapped → List Nomination → Outcome ConfirmError (List String)
held_ids i es [] = ok []
held_ids i es (n ∷ ns) = do
  id ← or_refuse (lookup (member_key n.raw n.envelope_ref) es) (not_present i)
  ids ← held_ids (suc i) es ns
  ok (id ∷ ids)

unfoldable pub assignment_of : Result → Outcome ConfirmError (List String)
unfolding map_clusters held_ids
assignment_of res = do es ← map_clusters res.clusters []; held_ids 0 es res.nominations

-- `nameOf`
abbrev pub name_in : List Cluster → String → String
name_in [] id = id
name_in (c ∷ cs) id = let rest = name_in cs id in if c.canonical_id == id then c.name else rest

abbrev pub name_of : Result → String → String
name_of res = name_in res.clusters

-- The keys and indices that a loop over a slice meets, from index `i` on.
abbrev pub numbered : ℕ → List String → List (String × ℕ)
numbered i [] = []
numbered i (k ∷ ks) = (k, i) ∷ numbered (suc i) ks

-- Whether a loop over the assigned ids that reads `prov.Nominations[i]` where the id passes a test meets
-- an index out of range, at which Go panics. `confirm` ends in `panics` before it takes such a loop.
unfoldable pub overruns : (String → Bool) → List Nomination → List String → Bool
overruns p ns [] = false
overruns p [] (id ∷ ids) = p id || overruns p [] ids
overruns p (n ∷ ns) (id ∷ ids) = overruns p ns ids

-- `prov.Nominations[i].Raw`; for an index out of range see `overruns`.
abbrev pub raw_at : List Nomination → ℕ → String
raw_at [] i = ""
raw_at (n ∷ ns) zero = n.raw
raw_at (n ∷ ns) (suc i) = raw_at ns i

-- `byRaw` in the order `rawOrder`
abbrev pub by_raw : List Nomination → List ℕ → List (String × List ℕ)
by_raw noms is = group (map (λ i. (raw_at noms i, i)) is)

-- `fmt.Sprintf("%s#s%d", id, k+1)`, from part number `k` on.
unfoldable pub split_parts : String → ℕ → List (String × List ℕ) → List ProposedCluster
unfolding ◌<>◌ decimal
split_parts id k [] = []
split_parts id k (p ∷ ps) =
    record { canonical_id = id <> ("#s" <> decimal (suc k)); name = p.0; members = positions p.1 }
    ∷ split_parts id (suc k) ps

abbrev pub whole_entity : Result → String → List ℕ → ProposedCluster
whole_entity prov id is = record {
  canonical_id = id;
  name = name_of prov id;
  members = positions is;
}

abbrev pub is_unsplittable : Result → List ℕ → Bool
is_unsplittable prov is = ltb (length (by_raw prov.nominations is)) 2

-- One turn of the loop of `applySplits`: the entities that an entity becomes.
unfoldable pub split_entity : Result → List String → String × List ℕ → List ProposedCluster
unfolding split_parts
split_entity prov targets g =
    if not (contains targets g.0)
    then whole_entity prov g.0 g.1 ∷ []
    else if is_unsplittable prov g.1
    then whole_entity prov g.0 g.1 ∷ []
    else split_parts g.0 0 (by_raw prov.nominations g.1)

-- `members` in the order `order`
abbrev pub entities : List String → List (String × List ℕ)
entities assign = group (numbered 0 assign)

unfoldable pub split_all : Result → List String → List (String × List ℕ) → List ProposedCluster
unfolding split_entity
split_all prov targets [] = []
split_all prov targets (g ∷ gs) = split_entity prov targets g ++ split_all prov targets gs

-- The clusters that `applySplits` returns.
unfoldable pub apply_splits : Result → List String → List String → List ProposedCluster
unfolding split_all
apply_splits prov assign targets = split_all prov targets (entities assign)

-- What `applySplits` tells of a target: the parts of its split, or that it cannot be split. A target
-- that holds no nomination is told of by neither map.
pub data SplitDetail : Type 0 where
  no_detail unsplittable : SplitDetail
  split_into : List String → SplitDetail

abbrev pub raw_order : Result → List ℕ → List String
raw_order prov is = map (λ p. p.0) (by_raw prov.nominations is)

abbrev pub split_detail : Result → List (String × List ℕ) → String → SplitDetail
split_detail prov [] id = no_detail
split_detail prov (g ∷ gs) id =
    let rest = split_detail prov gs id in
    if g.0 == id
    then (if is_unsplittable prov g.1 then unsplittable else split_into (raw_order prov g.1))
    else rest
