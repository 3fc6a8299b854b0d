-- ===== src/Govern/Tally.antt =====
-- decision.go: the tally of the recorded ballots. The texts that explain a decision to a reader
-- (`Rendering`, and the sentences of `TieOutcome` and `Reason`) are left to the program; the values that
-- they state are here.
pub mod Claims
pub mod Standing
pub mod Ballots
pub mod Shortlist
pub mod Cut
pub mod Labels
pub mod Ahead
pub mod Ranks
pub mod Fair
use aimesh.Base.{
  ℕ, suc, ◌+◌, ◌-◌, max, min, String, Bool, true, false, not, ◌&&◌, ◌||◌, List, [], ◌∷◌, ◌++◌, map,
  Option, none, some, get_elem?, length, is_empty, keep, ltb, leb, eqb, ◌==◌, String_comparable,
  if◌then◌else◌,
}
use aimesh.Base.Order.{sort_by}
use aimesh.Base.Outcome.{Outcome, ok, err, ◌>>=◌, ◌>>◌, refuse, or_refuse, wrap_err}
use aimesh.Base.Text.{is_blank, text_lt}
use aimesh.Schema.{ExplorerIdentity}
use aimesh.Canon.Contested.{ContestedMapping}
use aimesh.Canon.View.{Cluster, Result}
use aimesh.Govern.Policy.{TieRule, Panel, quorum_met}
use aimesh.Govern.Baseline.{BlindBaseline}
use aimesh.Govern.Claim.{Claim}
use aimesh.Govern.Decision.{DecisionInputs, FrozenDecision, decision_rule_version}
use aimesh.Govern.Ballot.{Ballot, BallotError, validate_ballot}
use Claims.{TallyInput, Candidate, ballot_claim}

-- Why a candidate is not on the shortlist, and the rank of the cut.
pub data RejectReason : Type 0 where
  not_placed : RejectReason
  below_cut : ℕ → RejectReason

pub record DecisionEntry : Type 0 where
  pub rank : ℕ
  pub canonical_id : String
  pub name : String
  pub score : ℕ
  pub approvals : ℕ
  pub support : ℕ
  pub voters : List ExplorerIdentity
  pub tied : Bool
  pub shortlisted : Bool
  pub claim : Option Claim
  pub reason : Option RejectReason

-- What the sentence on a tie at the boundary states.
pub record TieOutcome : Type 0 where
  pub tied_at_cut : ℕ
  pub cut_rank : ℕ
  pub cut : ℕ
  pub tie_rule : TieRule

pub record Decision : Type 0 where
  pub frozen : FrozenDecision
  pub ballots : List Ballot
  pub entries : List DecisionEntry
  pub cast : ℕ
  pub quorum_met : Bool
  pub tie_outcome : Option TieOutcome
  pub rule_version : String

-- `agg`; the code also collects the references of the ballots, and does not read them.
pub record Agg : Type 0 where
  pub score : ℕ
  pub approvals : ℕ
  pub voters : List ExplorerIdentity

-- `tallies`: an id of the universe has an entry from the start, and a validated ballot names no other.
abbrev pub Tallies : Type 0
Tallies = String → Agg

abbrev pub no_votes : Tallies
no_votes id = record { score = 0; approvals = 0; voters = [] }

abbrev pub at : String → (Agg → Agg) → Tallies → Tallies
at id f t other = if other == id then f (t other) else t other

-- `max(n-i, 1)`: first place scores n.
abbrev pub points : ℕ → ℕ → ℕ
points n i = max (n - i) 1

abbrev pub placed : ℕ → ExplorerIdentity → Agg → Agg
placed pts by a = record a { score = a.score + pts; voters = a.voters ++ (by ∷ []) }

abbrev pub approve : Agg → Agg
approve a = record a { approvals = suc a.approvals }

unfoldable pub add_ranking : ℕ → ExplorerIdentity → ℕ → List String → Tallies → Tallies
add_ranking n by i [] t = t
add_ranking n by i (id ∷ ids) t = add_ranking n by (suc i) ids (at id (placed (points n i) by) t)

unfoldable pub add_approved : List String → Tallies → Tallies
add_approved [] t = t
add_approved (id ∷ ids) t = add_approved ids (at id approve t)

pub data TallyError : Type 0 where
  not_frozen framing_changed : TallyError
  ballot_refused : BallotError → TallyError
  -- Go's panic on an index out of range
  panics : TallyError

unfoldable pub add_ballots : List String → List Ballot → Tallies → Outcome TallyError Tallies
unfolding add_ranking add_approved
add_ballots order [] t = ok t
add_ballots order (b ∷ bs) t = do
  wrap_err ballot_refused (validate_ballot order b)
  add_ballots order bs (add_approved b.approved (add_ranking (length order) b.by 0 b.ranking t))

-- `names[id]`: a later cluster with the same id wins.
abbrev pub name_of : List Cluster → String → String → String
name_of [] id name = name
name_of (c ∷ cs) id name = name_of cs id (if c.canonical_id == id then c.name else name)

abbrev pub entry_of : List Cluster → Tallies → String → DecisionEntry
entry_of clusters t id = record {
  rank = 0;
  canonical_id = id;
  name = name_of clusters id "";
  score = (t id).score;
  approvals = (t id).approvals;
  support = length (t id).voters;
  voters = (t id).voters;
  tied = false;
  shortlisted = false;
  claim = none;
  reason = none;
}

-- The order of the entries: score, support, approvals, and the id to break a tie.
unfoldable pub better : DecisionEntry → DecisionEntry → Bool
unfolding text_lt
better a b =
    if not (eqb a.score b.score)
    then ltb b.score a.score
    else if not (eqb a.support b.support)
    then ltb b.support a.support
    else if not (eqb a.approvals b.approvals)
    then ltb b.approvals a.approvals
    else text_lt a.canonical_id b.canonical_id

abbrev pub same_standing : DecisionEntry → DecisionEntry → Bool
same_standing a b = eqb a.score b.score && eqb a.support b.support && eqb a.approvals b.approvals

-- The loop that ranks: `prev` is the entry before, already ranked, and `i` the index of the next.
unfoldable pub rank_after : ℕ → DecisionEntry → List DecisionEntry → List DecisionEntry
rank_after i prev [] = prev ∷ []
rank_after i prev (e ∷ es) = elim (same_standing prev e) [
  | true ↦
      record prev { tied = true }
      ∷ rank_after (suc i) (record e { rank = prev.rank; tied = true }) es
  | false ↦ prev ∷ rank_after (suc i) (record e { rank = suc i }) es
]

unfoldable pub rank_entries : List DecisionEntry → List DecisionEntry
unfolding rank_after
rank_entries [] = []
rank_entries (e ∷ es) = rank_after 1 (record e { rank = 1 }) es

-- `entries[minInt(cut, len(entries))-1].Rank`; nothing stands for the panic.
abbrev pub rank_at : ℕ → List DecisionEntry → Option ℕ
rank_at cut entries =
    if eqb (min cut (length entries)) 0
    then none
    else elim (get_elem? entries (min cut (length entries) - 1)) [
      | none ↦ none
      | some e ↦ some e.rank
    ]

abbrev pub mark_shortlisted : ℕ → DecisionEntry → DecisionEntry
mark_shortlisted cut_rank e = record e { shortlisted = leb e.rank cut_rank }

-- `Decision.Shortlisted` and `Decision.Rejected`
abbrev pub shortlisted : List DecisionEntry → List DecisionEntry
shortlisted = keep λ e. e.shortlisted

abbrev pub rejected : List DecisionEntry → List DecisionEntry
rejected = keep λ e. not e.shortlisted

-- A tie group straddles the cut.
abbrev pub straddles : ℕ → List DecisionEntry → Bool
straddles cut entries = ltb cut (length (shortlisted entries))

abbrev pub tie_outcome_of : FrozenDecision → ℕ → List DecisionEntry → Option TieOutcome
tie_outcome_of f cut_rank entries =
    if straddles f.inputs.shortlist_size entries
    then some (record {
      tied_at_cut = length (keep (λ (e : DecisionEntry). eqb e.rank cut_rank) entries);
      cut_rank = cut_rank;
      cut = f.inputs.shortlist_size;
      tie_rule = f.inputs.tie_rule;
    })
    else none

abbrev pub reject_reason : DecisionEntry → ℕ → RejectReason
reject_reason e cut_rank = if eqb e.support 0 then not_placed else below_cut cut_rank

abbrev pub candidate_of : DecisionEntry → Candidate
candidate_of e = record { canonical_id = e.canonical_id; name = e.name; support = e.support }

-- The last loop: a claim for an entry inside the cut, a reason for one outside.
unfoldable pub conclude : TallyInput → ℕ → Bool → Bool → DecisionEntry → DecisionEntry
unfolding ballot_claim
conclude i cut_rank over quorum e =
    if e.shortlisted
    then record e {
      claim = some (ballot_claim i (candidate_of e) (over && eqb e.rank cut_rank) quorum);
    }
    else record e { reason = some (reject_reason e cut_rank) }

abbrev pub enough_ballots : TallyInput → Bool
enough_ballots i = quorum_met i.panel && leb i.frozen.inputs.quorum (length i.ballots)

unfoldable pub ranked_entries : TallyInput → Tallies → List DecisionEntry
unfolding sort_by better rank_entries
ranked_entries i t =
    rank_entries
      (sort_by better (map (entry_of i.partition.clusters t) i.frozen.inputs.presentation.order))

unfoldable pub decide : TallyInput → List DecisionEntry → ℕ → Decision
unfolding conclude
decide i entries cut_rank =
    let cut_entries = map (mark_shortlisted cut_rank) entries in
    let over = straddles i.frozen.inputs.shortlist_size cut_entries in
    record {
      frozen = i.frozen;
      ballots = i.ballots;
      entries = map (conclude i cut_rank over (enough_ballots i)) cut_entries;
      cast = length i.ballots;
      quorum_met = enough_ballots i;
      tie_outcome = tie_outcome_of i.frozen cut_rank cut_entries;
      rule_version = decision_rule_version;
    }

unfoldable pub tally : (DecisionInputs → String) → TallyInput → Outcome TallyError Decision
unfolding add_ballots ranked_entries decide
tally digest i = do
  refuse (is_blank i.frozen.inputs_hash) not_frozen
  refuse (not (i.frozen.inputs_hash == digest i.frozen.inputs)) framing_changed
  t ← add_ballots i.frozen.inputs.presentation.order i.ballots no_votes
  let entries = ranked_entries i t
  cut_rank ← or_refuse (rank_at i.frozen.inputs.shortlist_size entries) panics
  ok (decide i entries cut_rank)
