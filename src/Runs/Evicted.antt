-- ===== src/Runs/Evicted.antt =====
-- `dropLocked` of runs.go on the indexes of the registry.
use mathlib.Core.Path.{subst}
use aimesh.Base.{
  ◌≡◌, refl, sym, ap, ◌∙◌, String, true, false, Bool-cases, not, ◌&&◌, List, none, some, inl, inr,
  arith, if◌then◌else◌, ◌==◌, String_comparable,
}
use aimesh.Base.Maps.{lookup, lookup-remove}
use aimesh.Runs.{RunRecord, Registry, get, drop, is_for, unindex}
use aimesh.Runs.Pruned.{
  Pruned, rest_kept, one_kept, one_missing, one_dropped, IsNamed, drop-held, drop-IsNamed,
  get-drop-other,
}

-- The indexes lead to the runs that they are for, and a source run leads to its only remediation.
pub record IsIndexed (rg : Registry) : Type 0 where
  pub named : IsNamed rg
  pub keyed :
      (k id : String)
      → lookup k rg.by_key ≡ some id
      → ((k == "") ≡ false) × (r : RunRecord) × (get rg id ≡ some r) × (r.key ≡ k)
  pub sourced :
      (k id : String)
      → lookup k rg.by_source ≡ some id
      → ((k == "") ≡ false) × (r : RunRecord) × (get rg id ≡ some r) × (r.source_run_id ≡ k)
  pub sole :
      (id : String) (r : RunRecord)
      → get rg id ≡ some r
      → (r.source_run_id == "") ≡ false
      → lookup r.source_run_id rg.by_source ≡ some id

module _ (k id i j : String) (m : List (String × String)) where
  lookup-unindex :
      (not (k == "") && is_for (lookup k m) id) ≡ true
      → lookup i (unindex k id m) ≡ (if k == i then none else lookup i m)
  lookup-unindex e = rw e (lookup-remove k i m)

  lookup-unindex-gone :
      (not (k == "") && is_for (lookup k m) id) ≡ true
      → (k == i) ≡ true
      → lookup i (unindex k id m) ≡ none
  lookup-unindex-gone e same = lookup-unindex e ∙ rw same refl

  lookup-unindex-other :
      (not (k == "") && is_for (lookup k m) id) ≡ true
      → (k == i) ≡ false
      → lookup i (unindex k id m) ≡ lookup i m
  lookup-unindex-other e other = lookup-unindex e ∙ rw other refl

  lookup-unindex-same : (not (k == "") && is_for (lookup k m) id) ≡ false → unindex k id m ≡ m
  lookup-unindex-same e = rw e refl

  -- What an index holds without the entry of a run was there before, and is not of that run.
  unindex-left :
      lookup i (unindex k id m) ≡ some j
      → (lookup i m ≡ some j) × ((k == "") ≡ false → i ≡ k → j ≡ id → ⊥)
  unindex-left h = elim (Bool-cases (not (k == "") && is_for (lookup k m) id)) [
    | inl e ↦ elim (Bool-cases (k == i)) [
      | inl same ↦ cc (lookup-unindex-gone e same, h)
      | inr other ↦ (
        sym (lookup-unindex-other e other) ∙ h,
        λ full a b. cc (other, (String_comparable.same_iff k i).1 (sym a)),
      )
    ]
    | inr e ↦
        let before : lookup i m ≡ some j = ap (lookup i) (sym (lookup-unindex-same e)) ∙ h in
        (
          before,
          λ full a b.
              let found : lookup k m ≡ some id =
                ap (λ x. lookup x m) (sym a) ∙ before ∙ ap some b in
              let hit : is_for (lookup k m) id ≡ true =
                ap (λ o. is_for o id) found ∙ (String_comparable.same_iff id id).1 refl in
              cc (rw (full, hit) at e),
        )
  ]

  -- An entry of another run stays.
  unindex-kept : lookup i m ≡ some j → (j == id) ≡ false → lookup i (unindex k id m) ≡ some j
  unindex-kept h e = elim (Bool-cases (not (k == "") && is_for (lookup k m) id)) [
    | inl f ↦ elim (Bool-cases (k == i)) [
      | inl same ↦
          let alike : k ≡ i = (String_comparable.same_iff k i).0 same in
          let found : lookup k m ≡ some j = ap (λ x. lookup x m) alike ∙ h in
          let hit : is_for (lookup k m) id ≡ false = ap (λ o. is_for o id) found ∙ e in
          absurd (ground (arith, f, hit))
      | inr other ↦ lookup-unindex-other f other ∙ h
    ]
    | inr f ↦ ap (lookup i) (lookup-unindex-same f) ∙ h
  ]

module _ (r : RunRecord) (rg : Registry) (x : String) (held : get rg x ≡ some r)
    (h : IsIndexed rg) where
  by_key-drop : (drop r rg).by_key ≡ unindex r.key r.id rg.by_key
  unfolding drop
  by_key-drop = refl

  by_source-drop : (drop r rg).by_source ≡ unindex r.source_run_id r.id rg.by_source
  unfolding drop
  by_source-drop = refl

  -- The run that an entry leads to is not the one that goes.
  spared :
      (id : String) (s : RunRecord)
      → get rg id ≡ some s
      → (id ≡ r.id → ⊥)
      → get (drop r rg) id ≡ some s
  spared id s found apart = elim (Bool-cases (r.id == id)) [
    | inl e ↦ absurd (apart (sym ((String_comparable.same_iff r.id id).0 e)))
    | inr e ↦ get-drop-other r rg id e ∙ found
  ]

  -- At its own id stands the run that goes.
  itself : (id : String) (s : RunRecord) → get rg id ≡ some s → id ≡ r.id → s ≡ r
  itself id s found same =
      let name : x ≡ r.id = sym (h.named x r held) in
      let alike : get rg x ≡ some s = ap (get rg) (name ∙ sym same) ∙ found in cc (alike, held)

  drop-IsIndexed : IsIndexed (drop r rg)
  drop-IsIndexed = record {
    named = drop-IsNamed r rg h.named;
    keyed = λ k id e.
        let (before, apart) =
          unindex-left r.key r.id k id rg.by_key (ap (lookup k) (sym by_key-drop) ∙ e) in
        let (full, s, found, same) = h.keyed k id before in
        (
          full,
          s,
          spared id s found (λ own.
              let mine : k ≡ r.key =
                sym same ∙ ap (λ (y : RunRecord). y.key) (itself id s found own) in
              apart (subst (λ y. (y == "") ≡ false) mine full) mine own),
          same,
        );
    sourced = λ k id e.
        let (before, apart) =
          unindex-left r.source_run_id r.id k id rg.by_source
            (ap (lookup k) (sym by_source-drop) ∙ e) in
        let (full, s, found, same) = h.sourced k id before in
        (
          full,
          s,
          spared id s found (λ own.
              let mine : k ≡ r.source_run_id =
                sym same ∙ ap (λ (y : RunRecord). y.source_run_id) (itself id s found own) in
              apart (subst (λ y. (y == "") ≡ false) mine full) mine own),
          same,
        );
    sole = λ id s e full.
        let (other, found) = drop-held r s rg id e in
        ap (lookup s.source_run_id) by_source-drop
        ∙ unindex-kept r.source_run_id r.id s.source_run_id id rg.by_source (h.sole id s found full)
            (ground (
              arith,
              other,
              String_comparable.same_iff r.id id,
              String_comparable.same_iff id r.id,
            ));
  }

pub Pruned-IsIndexed :
    {ids ids' : List String} {rg rg' : Registry}
    → Pruned ids rg ids' rg'
    → IsIndexed rg
    → IsIndexed rg'
Pruned-IsIndexed rest_kept h = h
Pruned-IsIndexed (one_kept _ p) h = Pruned-IsIndexed p h
Pruned-IsIndexed (one_missing _ _ p) h = Pruned-IsIndexed p h
Pruned-IsIndexed {rg = rg} (one_dropped x r held done p) h =
    Pruned-IsIndexed p (drop-IsIndexed r rg x held h)
