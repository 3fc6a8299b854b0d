-- ===== src/Runs/Finished.antt =====
-- `record.finish` of runs.go.
use aimesh.Base.{
  ℕ, ◌≡◌, refl, sym, ap, ◌∙◌, String, true, false, Bool-cases, none, some, Option-cases, inl, inr,
  if◌then◌else◌, ◌==◌, String_comparable,
}
use aimesh.Base.Maps.{put, lookup, lookup-put}
use aimesh.Runs.{RunState, RunRecord, Registry, get, finish}
use aimesh.Runs.Kept.{some_run}
use aimesh.Runs.Released.{IsWellFormed}

-- Two records of one run: they differ in the state and the end at most.
record IsSameRun (r s : RunRecord) : Type 0 where
  pub id : r.id ≡ s.id
  pub key : r.key ≡ s.key
  pub source_run_id : r.source_run_id ≡ s.source_run_id

module _ (id : String) (state : RunState) (now : ℕ) (rg : Registry) where
  abbrev finished : RunRecord → RunRecord
  finished r = record r { state = state; end = now }

  abbrev with_finished : RunRecord → Registry
  with_finished r = record rg { by_id = put id (finished r) rg.by_id }

  finish-held : (r : RunRecord) → get rg id ≡ some r → finish id state now rg ≡ with_finished r
  unfolding finish
  finish-held r h = rw (h, finish) refl

  finish-missing : get rg id ≡ none → finish id state now rg ≡ rg
  unfolding finish
  finish-missing h = rw (h, finish) refl

  module _ (r : RunRecord) (held : get rg id ≡ some r) where
    get-finished :
        (j : String) → get (with_finished r) j ≡ (if id == j then some (finished r) else get rg j)
    get-finished j = lookup-put id j (finished r) rg.by_id

    at_its_id : (j : String) → (id == j) ≡ true → get (with_finished r) j ≡ some (finished r)
    at_its_id j e = get-finished j ∙ ap (λ b. if b then some (finished r) else get rg j) e

    at_another : (j : String) → (id == j) ≡ false → get (with_finished r) j ≡ get rg j
    at_another j e = get-finished j ∙ ap (λ b. if b then some (finished r) else get rg j) e

    -- Each run that was held is held, and none else is.
    still_held :
        (j : String) (s : RunRecord)
        → get rg j ≡ some s
        → (t : RunRecord) × (get (with_finished r) j ≡ some t) × IsSameRun t s
    still_held j s h = elim (Bool-cases (id == j)) [
      | inl e ↦
          let same : r ≡ s = cc (held, ap (get rg) ((String_comparable.same_iff id j).0 e), h) in
          (
            finished r,
            at_its_id j e,
            record {
              id = ap (λ (x : RunRecord). x.id) same;
              key = ap (λ (x : RunRecord). x.key) same;
              source_run_id = ap (λ (x : RunRecord). x.source_run_id) same;
            },
          )
      | inr e ↦ (s, at_another j e ∙ h, record { id = refl; key = refl; source_run_id = refl })
    ]

    was_held :
        (j : String) (t : RunRecord)
        → get (with_finished r) j ≡ some t
        → (s : RunRecord) × (get rg j ≡ some s) × IsSameRun t s
    was_held j t h = elim (Bool-cases (id == j)) [
      | inl e ↦
          let same : finished r ≡ t = cc (at_its_id j e, h) in
          (
            r,
            ap (get rg) (sym ((String_comparable.same_iff id j).0 e)) ∙ held,
            record {
              id = ap (λ (x : RunRecord). x.id) (sym same);
              key = ap (λ (x : RunRecord). x.key) (sym same);
              source_run_id = ap (λ (x : RunRecord). x.source_run_id) (sym same);
            },
          )
      | inr e ↦
          (t, sym (at_another j e) ∙ h, record { id = refl; key = refl; source_run_id = refl })
    ]

    finished-IsWellFormed : IsWellFormed rg → IsWellFormed (with_finished r)
    finished-IsWellFormed h = record {
      indexed = record {
        named = λ j t e. let (s, old, same) = was_held j t e in same.id ∙ h.indexed.named j s old;
        keyed = λ k j e.
            let (full, s, old, key) = h.indexed.keyed k j e in
            let (t, new, same) = still_held j s old in (full, t, new, same.key ∙ key);
        sourced = λ k j e.
            let (full, s, old, source) = h.indexed.sourced k j e in
            let (t, new, same) = still_held j s old in (full, t, new, same.source_run_id ∙ source);
        sole = λ j t e full.
            let (s, old, same) = was_held j t e in
            ap (λ k. lookup k rg.by_source) same.source_run_id
            ∙ h.indexed.sole j s old (ap (λ k. k == "") (sym same.source_run_id) ∙ full);
      };
      unique = h.unique;
      listed = λ j. h.listed j ∙ elim (Bool-cases (id == j)) [
        | inl e ↦
            let own : get rg j ≡ some r =
              ap (get rg) (sym ((String_comparable.same_iff id j).0 e)) ∙ held in
            ap some_run own ∙ sym (ap some_run (at_its_id j e))
        | inr e ↦ ap some_run (sym (at_another j e))
      ];
    }

  pub finish-IsWellFormed : IsWellFormed rg → IsWellFormed (finish id state now rg)
  finish-IsWellFormed h = elim (Option-cases (get rg id)) [
    | inl e ↦ rw (finish-missing e) h
    | inr (r, e) ↦ rw (finish-held r e) (finished-IsWellFormed r e h)
  ]
