-- ===== src/Canon/Build/Uncontested.antt =====
-- The contested merges of the ledger that `buildLedger` (canon.go) starts.
use aimesh.Base.{◌≡◌, refl, sym, ap, ◌∙◌, List, [], ◌∷◌, Option-cases, inl, inr}
use aimesh.Base.Int.{ℤ}
use aimesh.Base.Outcome.{ok}
use aimesh.Canon.Ledger.{ProposedCluster, Ledger, append, new_ledger}
use aimesh.Canon.Build.{
  Building, Job, nomination_at, add_members, add_clusters, build_ledger, start,
}
use aimesh.Canon.Build.Members.{next, add_members_step, add_members-out, add_members-nil}
use aimesh.Canon.Build.Clusters.{entered, add_cluster_cases, add_clusters-nil, add_clusters_cases}
use aimesh.Canon.Build.Gate.{build_ledger_cases}

module _ (j : Job) where
  append-contested :
      (c : ProposedCluster) (m : ℤ) (n : _) (b : Building)
      → (next j c m n b).led.contested ≡ b.led.contested
  unfolding append
  append-contested c m n b = refl

  add_members-contested :
      (c : ProposedCluster) (ms : List ℤ) (b b' : Building)
      → add_members j c ms b ≡ ok b'
      → b'.led.contested ≡ b.led.contested
  add_members-contested c [] b b' e = cc (add_members-nil j c b)
  add_members-contested c (m ∷ ms) b b' e = elim (Option-cases (nomination_at j.nominations m)) [
    | inl h ↦ cc (add_members-out j c m ms b h)
    | inr (n, h) ↦
        add_members-contested c ms (next j c m n b) b' (sym (add_members_step j c m ms n b h) ∙ e)
        ∙ append-contested c m n b
  ]

  add_clusters-contested :
      (cs : List ProposedCluster) (b b' : Building)
      → add_clusters j cs b ≡ ok b'
      → b'.led.contested ≡ b.led.contested
  add_clusters-contested [] b b' e = cc (add_clusters-nil j b)
  add_clusters-contested (c ∷ cs) b b' e =
      let (mid, first, rest) = add_clusters_cases j c cs b b' e in
      let (_, _, _, run) = add_cluster_cases j c b mid first in
      add_clusters-contested cs mid b' rest
      ∙ add_members-contested c c.members (entered j c b) mid run

  -- The ledger of an accepted partition starts without contested merges.
  pub build_ledger-contested :
      (cs : List ProposedCluster) (led : Ledger) → build_ledger j cs ≡ ok led → led.contested ≡ []
  unfolding new_ledger
  build_ledger-contested cs led e =
      let (b, run, _, last) = build_ledger_cases j cs led e in
      ap (λ (l : Ledger). l.contested) (sym last) ∙ add_clusters-contested cs (start j) b run
