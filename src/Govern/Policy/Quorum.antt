-- ===== src/Govern/Policy/Quorum.antt =====
-- The frozen panel keeps its promises.
use aimesh.Base.{◌+◌, ◌≤◌, ◌≡◌, ◌↔◌, String, true, false, List, length, is_empty, arith}
use aimesh.Base.Outcome.{ok, IsOk}
use aimesh.Base.Text.{is_blank}
use aimesh.Schema.{ExplorerIdentity}
use aimesh.Govern.Policy.{
  CountingPolicy, Panel, Participation, withhold_no_winner, exclude_from_respondents, freeze,
  with_outcome, respondent_count, quorum_met, panel_of,
}

-- A policy that may be frozen.
pub record IsPolicy (p : CountingPolicy) : Type 0 where
  pub versioned : is_blank p.rules_version ≡ false
  pub quorum : 2 ≤ p.quorum
  pub ties : p.tie_rule ≡ withhold_no_winner
  pub missing : p.missing_response ≡ exclude_from_respondents

-- `freeze` accepts a panel exactly when it has a member and the policy is valid.
pub freeze_iff :
    (digest : CountingPolicy → String) (members : List ExplorerIdentity) (p : CountingPolicy)
    → IsOk (freeze digest members p) ↔ ((is_empty members ≡ false) × IsPolicy p)
unfolding freeze
freeze_iff digest members p = (
  λ e. (ground (arith, e.1), ground (arith, e.1)),
  λ h. (panel_of digest members p, ground arith),
)

-- A frozen panel with its participation recorded meets its quorum exactly when as many members as
-- the policy asks for neither failed nor abstained.
pub quorum_met_iff :
    (digest : CountingPolicy → String) (members : List ExplorerIdentity) (p : CountingPolicy)
    (o : Participation) (q : Panel)
    → freeze digest members p ≡ ok q
    → (quorum_met (with_outcome q o) ≡ true)
      ↔ (p.quorum + (o.technical_absence + o.deliberate_abstention) ≤ length members)
unfolding freeze quorum_met with_outcome respondent_count
quorum_met_iff digest members p o q e = (λ h. ground arith, λ h. ground arith)
