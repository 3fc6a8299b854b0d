-- ===== src/Runs/Reached.antt =====
-- The registries of runs.go that a server reaches, step by step.
use mathlib.Core.Path.{subst}
use aimesh.Base.{
  ℕ, ◌≡◌, refl, ap, ◌∙◌, String, true, false, none, some, Option-cases, inl, inr, ◌==◌,
  String_comparable,
}
use aimesh.Base.Maps.{lookup}
use aimesh.Runs.{
  RunState, is_running, RunRecord, Registry, Request, prior, admitted, new_registry, get, led_to,
  existing, existing_for_source, started_at, admit, reserve, finish, release,
}
use aimesh.Runs.Evicted.{IsIndexed}
use aimesh.Runs.Released.{IsWellFormed, release-IsWellFormed}
use aimesh.Runs.Finished.{finish-IsWellFormed}
use aimesh.Runs.Admitted.{admit-IsWellFormed, get-admit-own, by_source-admit, lookup-index_by}

-- One call, taken whole. A run's id is new, and only a remediation has a source run; it is reserved.
pub data Step : Registry → Registry → Type 0 where
  reserves :
      {rg rg' : Registry} (now : ℕ) (q : Request)
      → get rg q.id ≡ none
      → reserve now q rg ≡ admitted rg'
      → Step rg rg'
  admits :
      {rg : Registry} (now : ℕ) (q : Request)
      → get rg q.id ≡ none
      → (q.source_run_id == "") ≡ true
      → Step rg (admit now q rg)
  finishes :
      {rg : Registry} (id : String) (state : RunState) (now : ℕ)
      → is_running state ≡ false
      → Step rg (finish id state now rg)
  releases : {rg : Registry} (now : ℕ) → Step rg (release now rg)

pub data Reached : Registry → Type 0 where
  starts : Reached new_registry
  steps : {rg rg' : Registry} → Reached rg → Step rg rg' → Reached rg'

admitted-injective : {a b : Registry} → admitted a ≡ admitted b → a ≡ b
admitted-injective h = cc

reserve-admitted :
    (now : ℕ) (q : Request) (rg rg' : Registry)
    → reserve now q rg ≡ admitted rg'
    → (existing_for_source rg q.source_run_id ≡ none) × (admit now q rg ≡ rg')
unfolding reserve
reserve-admitted now q rg rg' e = elim (Option-cases (existing rg q.key)) [
  | inr (p, h) ↦ cc (rw (h, reserve) at e)
  | inl h ↦ elim (Option-cases (existing_for_source rg q.source_run_id)) [
    | inr (p, k) ↦ cc (rw (h, k, reserve) at e)
    | inl k ↦ (k, admitted-injective (rw (h, k, reserve) at e))
  ]
]

-- No run of a source is there where the index leads to none.
unreserved :
    (rg : Registry) (source : String)
    → IsIndexed rg
    → existing_for_source rg source ≡ none
    → (source == "") ≡ false
    → lookup source rg.by_source ≡ none
unfolding existing_for_source
unreserved rg source h e full = elim (Option-cases (lookup source rg.by_source)) [
  | inl k ↦ k
  | inr (id, k) ↦
      let (_, r, held, _) = h.sourced source id k in
      let leads : led_to rg (lookup source rg.by_source) ≡ some r = ap (led_to rg) k ∙ held in
      cc (rw full at e, leads)
]

Step-IsWellFormed : {rg rg' : Registry} → Step rg rg' → IsWellFormed rg → IsWellFormed rg'
Step-IsWellFormed {rg} {rg'} (reserves now q fresh e) h =
    let (first, same) = reserve-admitted now q rg rg' e in
    subst IsWellFormed same
      (admit-IsWellFormed now q rg fresh h (unreserved rg q.source_run_id h.indexed first))
Step-IsWellFormed {rg} (admits now q fresh none_given) h =
    admit-IsWellFormed now q rg fresh h (λ full. cc (none_given, full))
Step-IsWellFormed {rg} (finishes id state now done) h = finish-IsWellFormed id state now rg h
Step-IsWellFormed {rg} (releases now) h = release-IsWellFormed now rg h

new_registry-IsWellFormed : IsWellFormed new_registry
unfolding lookup
new_registry-IsWellFormed = record {
  indexed = record {
    named = λ id r e. cc e;
    keyed = λ k id e. cc e;
    sourced = λ k id e. cc e;
    sole = λ id r e full. cc e;
  };
  unique = tt;
  listed = λ id. refl;
}

-- In every registry that a server reaches, the order lists the runs that are held, each once; an
-- idempotency key and a source run lead to a held run that has them; and a source run leads to every
-- remediation of it.
pub Reached-IsWellFormed : {rg : Registry} → Reached rg → IsWellFormed rg
Reached-IsWellFormed starts = new_registry-IsWellFormed
Reached-IsWellFormed (steps before step) = Step-IsWellFormed step (Reached-IsWellFormed before)

reserve-prior :
    (now : ℕ) (q : Request) (rg : Registry) (p : RunRecord)
    → existing rg q.key ≡ none
    → existing_for_source rg q.source_run_id ≡ some p
    → reserve now q rg ≡ prior p
unfolding reserve
reserve-prior now q rg p h k = rw (h, k, reserve) refl

existing-nothing : (rg : Registry) → existing rg "" ≡ none
unfolding existing
existing-nothing rg = refl

existing_for_source-leads :
    (rg : Registry) (source : String)
    → (source == "") ≡ false
    → existing_for_source rg source ≡ led_to rg (lookup source rg.by_source)
unfolding existing_for_source
existing_for_source-leads rg source full = rw full refl

-- A retry without a key gets the run that the first call for its source run started.
pub reserve_again :
    (now later : ℕ) (q retry : Request) (rg rg' : Registry)
    → Reached rg
    → get rg q.id ≡ none
    → reserve now q rg ≡ admitted rg'
    → (q.source_run_id == "") ≡ false
    → retry.source_run_id ≡ q.source_run_id
    → retry.key ≡ ""
    → reserve later retry rg' ≡ prior (started_at now q)
reserve_again now later q retry rg rg' reached fresh e full same no_key =
    let h = Reached-IsWellFormed reached in
    let (first, made) = reserve-admitted now q rg rg' e in
    let found : lookup q.source_run_id (admit now q rg).by_source ≡ some q.id =
      ap (lookup q.source_run_id) (by_source-admit now q rg fresh h)
      ∙ lookup-index_by q.source_run_id q.id q.source_run_id rg.by_source
      ∙ rw (full, (String_comparable.same_iff q.source_run_id q.source_run_id).1 refl) refl in
    let leads : led_to rg' (lookup q.source_run_id rg'.by_source) ≡ some (started_at now q) =
      subst
        (λ (x : Registry). led_to x (lookup q.source_run_id x.by_source) ≡ some (started_at now q))
        made (ap (led_to (admit now q rg)) found ∙ get-admit-own now q rg fresh h) in
    reserve-prior later retry rg' (started_at now q)
      (ap (existing rg') no_key ∙ existing-nothing rg')
      (ap (existing_for_source rg') same
        ∙ existing_for_source-leads rg' q.source_run_id full
        ∙ leads)
