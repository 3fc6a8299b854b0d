-- ===== src/Runs/Pruned.antt =====
-- The walk of both loops of `evictLocked` (runs.go) over the order.
use mathlib.Core.Path.{subst}
use aimesh.Base.{
  ℕ, ◌-◌, ◌≡◌, refl, sym, ap, ◌∙◌, String, true, false, Bool-cases, List, [], ◌∷◌, none, some,
  Option-cases, inl, inr, ltb, arith, if◌then◌else◌, ◌==◌, String_comparable,
}
use aimesh.Base.Maps.{lookup-remove}
use aimesh.Base.Sets.{contains}
use aimesh.Runs.{
  is_running, RunRecord, Registry, retain_finished, get, drop, is_stale, Pruning, sweep, trim,
}

-- From the rest `ids` of the order, a loop keeps `ids'` and turns `rg` into `rg'`.
pub data Pruned : List String → Registry → List String → Registry → Type 0 where
  rest_kept : {ids : List String} {rg : Registry} → Pruned ids rg ids rg
  one_kept :
      {ids ids' : List String} {rg rg' : Registry} (id : String)
      → Pruned ids rg ids' rg'
      → Pruned (id ∷ ids) rg (id ∷ ids') rg'
  one_missing :
      {ids ids' : List String} {rg rg' : Registry} (id : String)
      → get rg id ≡ none
      → Pruned ids rg ids' rg'
      → Pruned (id ∷ ids) rg ids' rg'
  one_dropped :
      {ids ids' : List String} {rg rg' : Registry} (id : String) (r : RunRecord)
      → get rg id ≡ some r
      → is_running r.state ≡ false
      → Pruned ids (drop r rg) ids' rg'
      → Pruned (id ∷ ids) rg ids' rg'

abbrev IsPruning : List String → Registry → Pruning → Type 0
IsPruning ids rg p = Pruned ids rg p.0 p.1

pub sweep-Pruned :
    (now : ℕ) (ids : List String) (rg : Registry) → IsPruning ids rg (sweep now ids rg)
unfolding sweep
sweep-Pruned now [] rg = rest_kept
sweep-Pruned now (id ∷ ids) rg = elim (Option-cases (get rg id)) [
  | inl h ↦ rw (h, sweep) (one_missing id h (sweep-Pruned now ids rg))
  | inr (r, h) ↦ elim (Bool-cases (is_stale now r)) [
    | inl s ↦
        rw (h, s, sweep) (one_dropped id r h (ground (arith, s)) (sweep-Pruned now ids (drop r rg)))
    | inr s ↦ rw (h, s, sweep) (one_kept id (sweep-Pruned now ids rg))
  ]
]

pub trim-Pruned : (ids : List String) (n : ℕ) (rg : Registry) → IsPruning ids rg (trim ids n rg)
unfolding trim
trim-Pruned [] n rg = rest_kept
trim-Pruned (id ∷ ids) n rg = elim (Bool-cases (ltb retain_finished n)) [
  | inr m ↦ rw (m, trim) rest_kept
  | inl m ↦ elim (Option-cases (get rg id)) [
    | inl h ↦ rw (m, h, trim) (one_kept id (trim-Pruned ids n rg))
    | inr (r, h) ↦ elim (Bool-cases (is_running r.state)) [
      | inl s ↦ rw (m, h, s, trim) (one_kept id (trim-Pruned ids n rg))
      | inr s ↦ rw (m, h, s, trim) (one_dropped id r h s (trim-Pruned ids (n - 1) (drop r rg)))
    ]
  ]
]

-- Each record stands under its own id.
abbrev pub IsNamed : Registry → Type 0
IsNamed rg = (id : String) (r : RunRecord) → get rg id ≡ some r → r.id ≡ id

get-drop :
    (r : RunRecord) (rg : Registry) (id : String)
    → get (drop r rg) id ≡ (if r.id == id then none else get rg id)
unfolding drop
get-drop r rg id = lookup-remove r.id id rg.by_id

pub get-drop-gone :
    (r : RunRecord) (rg : Registry) (id : String) → (r.id == id) ≡ true → get (drop r rg) id ≡ none
get-drop-gone r rg id e = get-drop r rg id ∙ rw e refl

pub get-drop-other :
    (r : RunRecord) (rg : Registry) (id : String)
    → (r.id == id) ≡ false
    → get (drop r rg) id ≡ get rg id
get-drop-other r rg id e = get-drop r rg id ∙ rw e refl

-- What is still held after a drop was held before, and is another run.
pub drop-held :
    (r s : RunRecord) (rg : Registry) (id : String)
    → get (drop r rg) id ≡ some s
    → ((r.id == id) ≡ false) × (get rg id ≡ some s)
drop-held r s rg id h = elim (Bool-cases (r.id == id)) [
  | inl e ↦ cc (get-drop-gone r rg id e, h)
  | inr e ↦ (e, sym (get-drop-other r rg id e) ∙ h)
]

pub drop-IsNamed : (r : RunRecord) (rg : Registry) → IsNamed rg → IsNamed (drop r rg)
drop-IsNamed r rg named id s h = named id s (drop-held r s rg id h).1

-- A run that the loop does not drop keeps its record: one that is not finished.
pub Pruned-running :
    {ids ids' : List String} {rg rg' : Registry} (p : Pruned ids rg ids' rg') (id : String)
    (r : RunRecord)
    → IsNamed rg
    → get rg id ≡ some r
    → is_running r.state ≡ true
    → get rg' id ≡ some r
Pruned-running rest_kept id r named h k = h
Pruned-running (one_kept _ p) id r named h k = Pruned-running p id r named h k
Pruned-running (one_missing _ _ p) id r named h k = Pruned-running p id r named h k
Pruned-running {rg = rg} (one_dropped x s held done p) id r named h k =
    Pruned-running p id r (drop-IsNamed s rg named)
      (elim (Bool-cases (s.id == id)) [
        | inl e ↦
            let name : s.id ≡ id = (String_comparable.same_iff s.id id).0 e in
            let same : x ≡ id = sym (named x s held) ∙ name in
            let alike : get rg x ≡ some r = ap (get rg) same ∙ h in cc (alike, held, done, k)
        | inr e ↦ get-drop s rg id ∙ rw e h
      ])
      k

-- A run that the order does not list keeps its record.
pub Pruned-elsewhere :
    {ids ids' : List String} {rg rg' : Registry} (p : Pruned ids rg ids' rg') (id : String)
    → IsNamed rg
    → contains ids id ≡ false
    → get rg' id ≡ get rg id
Pruned-elsewhere rest_kept id named h = refl
Pruned-elsewhere (one_kept _ p) id named h = Pruned-elsewhere p id named (ground (arith, h))
Pruned-elsewhere (one_missing _ _ p) id named h = Pruned-elsewhere p id named (ground (arith, h))
Pruned-elsewhere {rg = rg} (one_dropped x s held done p) id named h =
    let other : (s.id == id) ≡ false =
      subst (λ (y : String). (y == id) ≡ false) (sym (named x s held)) (ground (arith, h)) in
    Pruned-elsewhere p id (drop-IsNamed s rg named) (ground (arith, h))
    ∙ get-drop s rg id
    ∙ rw other refl

-- What is held afterwards was held before.
pub Pruned-held :
    {ids ids' : List String} {rg rg' : Registry} (p : Pruned ids rg ids' rg') (id : String)
    (r : RunRecord)
    → get rg' id ≡ some r
    → get rg id ≡ some r
Pruned-held rest_kept id r h = h
Pruned-held (one_kept _ p) id r h = Pruned-held p id r h
Pruned-held (one_missing _ _ p) id r h = Pruned-held p id r h
Pruned-held {rg = rg} (one_dropped x s held done p) id r h =
    (drop-held s r rg id (Pruned-held p id r h)).1
