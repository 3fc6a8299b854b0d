-- ===== src/Govern/Baseline.antt =====
-- govern.go: the blind round-1 baseline, the only envelopes that independence counts use.
pub mod Blind
use aimesh.Base.{
  ℕ, String, Bool, true, false, not, List, [], ◌∷◌, length, is_empty, eqb, String_comparable,
}
use aimesh.Base.Maps.{put, has_key}
use aimesh.Base.Outcome.{Outcome, ok, err, ◌>>=◌, ◌>>◌, refuse}
use aimesh.Schema.{ExplorerIdentity, Envelope, envelope_ref}
use aimesh.Round.{Round}

pub record BlindBaseline : Type 0 where
  pub round_id : String
  pub refs : List (String × ExplorerIdentity)

pub data BaselineError : Type 0 where
  not_round_one : ℕ → BaselineError
  not_blind : BaselineError
  no_envelopes : BaselineError

-- `for _, env := range ... { b.refs[EnvelopeRef(1, env.Order)] = env.Identity }`
record_envelopes :
    List Envelope → List (String × ExplorerIdentity) → List (String × ExplorerIdentity)
record_envelopes [] refs = refs
record_envelopes (e ∷ es) refs = record_envelopes es (put (envelope_ref 1 e.order) e.identity refs)

abbrev baseline_of : Round → BlindBaseline
baseline_of r = record { round_id = r.id; refs = record_envelopes r.envelopes [] }

unfoldable pub new_blind_baseline : Round → Outcome BaselineError BlindBaseline
unfolding record_envelopes
new_blind_baseline r = do
  refuse (not (eqb r.index 1)) (not_round_one r.index)
  refuse (not r.blind) not_blind
  refuse (is_empty (record_envelopes r.envelopes [])) no_envelopes
  ok (baseline_of r)

unfoldable pub size : BlindBaseline → ℕ
size b = length b.refs

unfoldable pub contains_ref : BlindBaseline → String → Bool
contains_ref b ref = has_key ref b.refs
