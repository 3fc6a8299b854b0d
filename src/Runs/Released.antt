-- ===== src/Runs/Released.antt =====
-- `release` of runs.go on the maps and the order of the registry.
use mathlib.Core.Path.{subst}
use aimesh.Base.{
  ℕ, ◌-◌, ◌≤◌, ◌≡◌, refl, sym, ap, ◌∙◌, String, true, false, Bool-cases, List, [], ◌∷◌, none, some,
  Option-cases, inl, inr, arith, ◌==◌, String_comparable,
}
use aimesh.Base.Sets.{contains, IsUnique}
use aimesh.Runs.{
  is_running, RunRecord, Registry, retain_finished, get, drop, is_stale, Pruning, in_order, sweep,
  count_finished, trim, evict, release,
}
use aimesh.Runs.Pruned.{
  Pruned, IsNamed, drop-IsNamed, get-drop-gone, get-drop-other, Pruned-held, Pruned-running,
  sweep-Pruned, trim-Pruned,
}
use aimesh.Runs.Evicted.{IsIndexed, Pruned-IsIndexed}
use aimesh.Runs.Kept.{is_held, some_run, Pruned-order}
use aimesh.Runs.Trimmed.{trim-IsTrimmed, count_same}

-- The maps and the order of the registry agree.
pub record IsWellFormed (rg : Registry) : Type 0 where
  pub indexed : IsIndexed rg
  pub unique : IsUnique rg.order
  pub listed : (id : String) → contains rg.order id ≡ is_held rg id

abbrev pub swept : ℕ → Registry → Registry
swept now rg = in_order (sweep now rg.order rg)

abbrev pub trimmed : Registry → Registry
trimmed rg = in_order (trim rg.order (count_finished rg.order rg) rg)

-- The indexes of a registry do not depend on its order.
in_order-IsIndexed : (p : Pruning) → IsIndexed p.1 → IsIndexed (in_order p)
in_order-IsIndexed (ids, rg) h = record {
  named = h.named;
  keyed = h.keyed;
  sourced = h.sourced;
  sole = h.sole;
}

Pruned-IsWellFormed :
    (rg : Registry) (p : Pruning)
    → Pruned rg.order rg p.0 p.1
    → IsWellFormed rg
    → IsWellFormed (in_order p)
Pruned-IsWellFormed rg (ids, rg') walk h =
    let (unique, listed) =
      Pruned-order walk h.indexed.named h.unique (λ id e. sym (h.listed id) ∙ e) in
    record {
      indexed = in_order-IsIndexed (ids, rg') (Pruned-IsIndexed walk h.indexed);
      unique = unique;
      listed = λ id. listed id ∙ elim (Option-cases (get rg' id)) [
        | inl e ↦ rw e (ground arith)
        | inr (r, e) ↦ rw (h.listed id, e, Pruned-held walk id r e) refl
      ];
    }

swept-IsWellFormed : (now : ℕ) (rg : Registry) → IsWellFormed rg → IsWellFormed (swept now rg)
swept-IsWellFormed now rg =
    Pruned-IsWellFormed rg (sweep now rg.order rg) (sweep-Pruned now rg.order rg)

trimmed-IsWellFormed : (rg : Registry) → IsWellFormed rg → IsWellFormed (trimmed rg)
trimmed-IsWellFormed rg =
    Pruned-IsWellFormed rg (trim rg.order (count_finished rg.order rg) rg)
      (trim-Pruned rg.order (count_finished rg.order rg) rg)

evict-trimmed : (now : ℕ) (rg : Registry) → evict now rg ≡ trimmed (swept now rg)
unfolding evict
evict-trimmed now rg = refl

abbrev pub one_less : Registry → Registry
one_less rg = record rg { active = rg.active - 1 }

release-trimmed : (now : ℕ) (rg : Registry) → release now rg ≡ trimmed (swept now (one_less rg))
unfolding release evict
release-trimmed now rg = refl

one_less-IsWellFormed : (rg : Registry) → IsWellFormed rg → IsWellFormed (one_less rg)
one_less-IsWellFormed rg h = record {
  indexed = record {
    named = h.indexed.named;
    keyed = h.indexed.keyed;
    sourced = h.indexed.sourced;
    sole = h.indexed.sole;
  };
  unique = h.unique;
  listed = h.listed;
}

pub release-IsWellFormed :
    (now : ℕ) (rg : Registry) → IsWellFormed rg → IsWellFormed (release now rg)
release-IsWellFormed now rg h = rw release-trimmed (
    trimmed-IsWellFormed (swept now (one_less rg))
      (swept-IsWellFormed now (one_less rg) (one_less-IsWellFormed rg h)))

-- A run that is running keeps its record, whatever a release forgets.
pub release-running :
    (now : ℕ) (rg : Registry) (id : String) (r : RunRecord)
    → IsWellFormed rg
    → get rg id ≡ some r
    → is_running r.state ≡ true
    → get (release now rg) id ≡ some r
release-running now rg id r h held alive =
    let mine = one_less-IsWellFormed rg h in
    let first = swept now (one_less rg) in
    let after = swept-IsWellFormed now (one_less rg) mine in
    let kept =
      Pruned-running (sweep-Pruned now rg.order (one_less rg)) id r mine.indexed.named held alive in
    rw release-trimmed (
      Pruned-running (trim-Pruned first.order (count_finished first.order first) first) id r
        after.indexed.named kept alive)

-- After a release, at most 50 of the runs that the registry lists are finished.
pub release_bounds :
    (now : ℕ) (rg : Registry)
    → IsWellFormed rg
    → count_finished (release now rg).order (release now rg) ≤ retain_finished
release_bounds now rg h =
    let first = swept now (one_less rg) in
    let after = swept-IsWellFormed now (one_less rg) (one_less-IsWellFormed rg h) in
    let n = count_finished first.order first in
    let last = trim first.order n first in
    let bound = trim-IsTrimmed first.order n first after.indexed.named after.unique (omega arith) in
    rw release-trimmed
      (omega (arith, bound, count_same last.0 last.1 (in_order last) (λ x e. refl)))

-- What is gone stays gone.
Pruned-gone :
    {ids ids' : List String} {rg rg' : Registry} (p : Pruned ids rg ids' rg') (id : String)
    → get rg id ≡ none
    → get rg' id ≡ none
Pruned-gone {rg' = rg'} p id h = elim (Option-cases (get rg' id)) [
  | inl e ↦ e
  | inr (r, e) ↦ cc (Pruned-held p id r e, h)
]

sweep_forgets :
    (now : ℕ) (ids : List String) (rg : Registry) (id : String) (r : RunRecord)
    → IsNamed rg
    → contains ids id ≡ true
    → get rg id ≡ some r
    → is_stale now r ≡ true
    → get (sweep now ids rg).1 id ≡ none
unfolding sweep
sweep_forgets now [] rg id r named among held stale = cc
sweep_forgets now (x ∷ ids) rg id r named among held stale = elim (Bool-cases (x == id)) [
  | inl e ↦
      let here : get rg x ≡ some r = ap (get rg) ((String_comparable.same_iff x id).0 e) ∙ held in
      let name : (r.id == id) ≡ true = (String_comparable.same_iff r.id id).1 (named id r held) in
      rw (here, stale, sweep)
        (Pruned-gone (sweep-Pruned now ids (drop r rg)) id (get-drop-gone r rg id name))
  | inr e ↦
      let later : contains ids id ≡ true = ground (arith, among) in
      elim (Option-cases (get rg x)) [
        | inl f ↦ rw (f, sweep) (sweep_forgets now ids rg id r named later held stale)
        | inr (s, f) ↦ elim (Bool-cases (is_stale now s)) [
          | inl g ↦
              let other : (s.id == id) ≡ false =
                subst (λ y. (y == id) ≡ false) (sym (named x s f)) e in
              rw (f, g, sweep)
                (sweep_forgets now ids (drop s rg) id r (drop-IsNamed s rg named) later
                  (get-drop-other s rg id other ∙ held) stale)
          | inr g ↦ rw (f, g, sweep) (sweep_forgets now ids rg id r named later held stale)
        ]
      ]
]

-- A release forgets every run that has been finished for more than an hour.
pub release_forgets :
    (now : ℕ) (rg : Registry) (id : String) (r : RunRecord)
    → IsWellFormed rg
    → get rg id ≡ some r
    → is_stale now r ≡ true
    → get (release now rg) id ≡ none
release_forgets now rg id r h held stale =
    let first = swept now (one_less rg) in
    let among : contains rg.order id ≡ true = h.listed id ∙ ap some_run held in
    rw release-trimmed (
      Pruned-gone (trim-Pruned first.order (count_finished first.order first) first) id (
        sweep_forgets now rg.order (one_less rg) id r (one_less-IsWellFormed rg h).indexed.named
          among held stale))
