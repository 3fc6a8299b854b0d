-- ===== src/Runs/Trimmed.antt =====
-- The last loop of `evictLocked` of runs.go and its count of finished runs.
use mathlib.Core.Path.{subst}
use aimesh.Base.{
  ℕ, ◌+◌, ◌-◌, ◌≤◌, ◌≡◌, refl, sym, ap, ◌∙◌, String, true, false, Bool-cases, List, [], ◌∷◌, Option,
  none, some, Option-cases, inl, inr, ltb, arith, if◌then◌else◌, ◌==◌, String_comparable,
}
use aimesh.Base.Sets.{contains, IsUnique}
use aimesh.Runs.{
  is_running, RunRecord, Registry, retain_finished, get, drop, keep_id, count_finished, trim,
}
use aimesh.Runs.Pruned.{
  Pruned, IsNamed, drop-IsNamed, get-drop-other, Pruned-elsewhere, trim-Pruned,
}
use aimesh.Runs.Kept.{apart}

-- The step of the count at one run.
abbrev is_done : Option RunRecord → ℕ
is_done none = 0
is_done (some r) = if is_running r.state then 0 else 1

count-cons :
    (id : String) (ids : List String) (rg : Registry)
    → count_finished (id ∷ ids) rg ≡ is_done (get rg id) + count_finished ids rg
unfolding count_finished
count-cons id ids rg = elim (Option-cases (get rg id)) [
  | inl h ↦ rw (h, count_finished) (omega arith)
  | inr (r, h) ↦ rw (h, count_finished) (ground arith)
]

count-nil : (rg : Registry) → count_finished [] rg ≡ 0
unfolding count_finished
count-nil rg = refl

pub count_same :
    (ids : List String) (rg rg' : Registry)
    → ((x : String) → contains ids x ≡ true → get rg' x ≡ get rg x)
    → count_finished ids rg' ≡ count_finished ids rg
count_same [] rg rg' h = count-nil rg' ∙ sym (count-nil rg)
count_same (id ∷ ids) rg rg' h = omega (
  arith,
  count-cons id ids rg,
  count-cons id ids rg',
  ap is_done (h id (ground (arith, String_comparable.same_iff id id))),
  count_same ids rg rg' (λ x e. h x (rw e (ground arith))),
)

-- Of a run that is not dropped, the rest of the walk leaves the count.
count-kept :
    {ids ids' : List String} {rg rg' : Registry} (p : Pruned ids rg ids' rg') (id : String)
    → IsNamed rg
    → contains ids id ≡ false
    → count_finished (id ∷ ids') rg' ≡ is_done (get rg id) + count_finished ids' rg'
count-kept {ids' = ids'} {rg' = rg'} p id named h =
    count-cons id ids' rg'
    ∙ ap (λ o. is_done o + count_finished ids' rg') (Pruned-elsewhere p id named h)

count-drop :
    (id : String) (ids : List String) (r : RunRecord) (rg : Registry)
    → r.id ≡ id
    → contains ids id ≡ false
    → count_finished ids (drop r rg) ≡ count_finished ids rg
count-drop id ids r rg name h =
    count_same ids rg (drop r rg)
      (λ x e. get-drop-other r rg x (subst (λ y. (y == x) ≡ false) (sym name) (apart id x ids h e)))

trim-kept :
    (id : String) (ids : List String) (n : ℕ) (rg : Registry)
    → ltb retain_finished n ≡ true
    → is_done (get rg id) ≡ 0
    → trim (id ∷ ids) n rg ≡ keep_id id (trim ids n rg)
unfolding trim
trim-kept id ids n rg m h = elim (Option-cases (get rg id)) [
  | inl e ↦ rw (m, e, trim) refl
  | inr (r, e) ↦
      let alive : is_running r.state ≡ true = ground (arith, h, ap is_done e) in
      rw (m, e, alive, trim) refl
]

trim-dropped :
    (id : String) (ids : List String) (n : ℕ) (rg : Registry) (r : RunRecord)
    → ltb retain_finished n ≡ true
    → get rg id ≡ some r
    → is_running r.state ≡ false
    → trim (id ∷ ids) n rg ≡ trim ids (n - 1) (drop r rg)
unfolding trim
trim-dropped id ids n rg r m e done = rw (m, e, done, trim) refl

trim-rest :
    (id : String) (ids : List String) (n : ℕ) (rg : Registry)
    → ltb retain_finished n ≡ false
    → trim (id ∷ ids) n rg ≡ (id ∷ ids, rg)
unfolding trim
trim-rest id ids n rg m = rw (m, trim) refl

trim-nil : (n : ℕ) (rg : Registry) → trim [] n rg ≡ ([], rg)
unfolding trim
trim-nil n rg = refl

-- Where `n` counts the finished runs of the list and some before it, the list keeps no more of them than
-- leaves room for those before.
abbrev pub IsTrimmed : List String → ℕ → Registry → Type 0
IsTrimmed ids n rg =
    count_finished (trim ids n rg).0 (trim ids n rg).1
    ≤ retain_finished - (n - count_finished ids rg)

pub trim-IsTrimmed :
    (ids : List String) (n : ℕ) (rg : Registry)
    → IsNamed rg
    → IsUnique ids
    → count_finished ids rg ≤ n
    → IsTrimmed ids n rg
trim-IsTrimmed [] n rg named u h = rw (trim-nil n rg) (omega (arith, count-nil rg))
trim-IsTrimmed (id ∷ ids) n rg named u h = elim (Bool-cases (ltb retain_finished n)) [
  | inr m ↦ rw (trim-rest id ids n rg m) (ground (arith, m, h))
  | inl m ↦ elim (Option-cases (get rg id)) [
    | inl e ↦
        let nothing : is_done (get rg id) ≡ 0 = ap is_done e in
        let later = trim-IsTrimmed ids n rg named u.1 (omega (arith, h, count-cons id ids rg)) in
        rw (trim-kept id ids n rg m nothing) (
          omega (
            arith,
            later,
            nothing,
            count-cons id ids rg,
            count-kept (trim-Pruned ids n rg) id named u.0,
          ))
    | inr (r, e) ↦ elim (Bool-cases (is_running r.state)) [
      | inl s ↦
          let nothing : is_done (get rg id) ≡ 0 = ap is_done e ∙ rw s refl in
          let later = trim-IsTrimmed ids n rg named u.1 (omega (arith, h, count-cons id ids rg)) in
          rw (trim-kept id ids n rg m nothing) (
            omega (
              arith,
              later,
              nothing,
              count-cons id ids rg,
              count-kept (trim-Pruned ids n rg) id named u.0,
            ))
      | inr s ↦
          let one : is_done (get rg id) ≡ 1 = ap is_done e ∙ rw s refl in
          let same = count-drop id ids r rg (named id r e) u.0 in
          let later =
            trim-IsTrimmed ids (n - 1) (drop r rg) (drop-IsNamed r rg named) u.1
              (omega (arith, h, one, same, count-cons id ids rg)) in
          rw (trim-dropped id ids n rg r m e s)
            (ground (arith, later, one, same, count-cons id ids rg, m, h))
    ]
  ]
]
