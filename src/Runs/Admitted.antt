-- ===== src/Runs/Admitted.antt =====
-- `admitLocked` of runs.go on a run with a new id.
use mathlib.Core.Path.{subst}
use aimesh.Base.{
  ℕ, ◌≡◌, refl, sym, ap, ◌∙◌, String, true, false, Bool-cases, not, ◌&&◌, List, [], ◌∷◌, ◌++◌, none,
  some, inl, inr, ◌⊎◌, arith, if◌then◌else◌, ◌==◌, String_comparable,
}
use aimesh.Base.Maps.{lookup, lookup-put}
use aimesh.Base.Sets.{contains, contains-append, IsUnique}
use aimesh.Runs.{RunRecord, Registry, Request, get, started_at, index_by, admit}
use aimesh.Runs.Kept.{some_run}
use aimesh.Runs.Released.{IsWellFormed}

pub lookup-index_by :
    (k id i : String) (m : List (String × String))
    → lookup i (index_by k id m) ≡ (if not (k == "") && k == i then some id else lookup i m)
lookup-index_by k id i m = elim (Bool-cases (k == "")) [
  | inl e ↦ rw e refl
  | inr e ↦ rw e (lookup-put k i id m)
]

-- An entry of an index to which a run was added: the run's own, or one that was there.
index_by-entry :
    (k id i j : String) (m : List (String × String))
    → lookup i (index_by k id m) ≡ some j
    → ((k == "") ≡ false) × (k ≡ i) × (id ≡ j) ⊎ (lookup i m ≡ some j)
index_by-entry k id i j m h = elim (Bool-cases (not (k == "") && k == i)) [
  | inl e ↦
      let own : lookup i (index_by k id m) ≡ some id =
        lookup-index_by k id i m ∙ ap (λ b. if b then some id else lookup i m) e in
      inl (ground (arith, e), (String_comparable.same_iff k i).0 (ground (arith, e)), cc (own, h))
  | inr e ↦ inr (sym (lookup-index_by k id i m ∙ ap (λ b. if b then some id else lookup i m) e) ∙ h)
]

IsUnique-snoc :
    (ids : List String) (id : String)
    → IsUnique ids
    → contains ids id ≡ false
    → IsUnique (ids ++ (id ∷ []))
IsUnique-snoc [] id u h = (refl, tt)
IsUnique-snoc (x ∷ ids) id u h = ground (
  arith,
  IsUnique-snoc ids id u.1,
  contains-append ids (id ∷ []) x,
  String_comparable.same_iff x id,
  String_comparable.same_iff id x,
)

module _ (now : ℕ) (q : Request) (rg : Registry) (fresh : get rg q.id ≡ none)
    (h : IsWellFormed rg) where
  get-admit :
      (id : String)
      → get (admit now q rg) id ≡ (if q.id == id then some (started_at now q) else get rg id)
  unfolding admit
  get-admit id = lookup-put q.id id (started_at now q) rg.by_id

  pub get-admit-own : get (admit now q rg) q.id ≡ some (started_at now q)
  get-admit-own =
      get-admit q.id
      ∙ ap (λ b. if b then some (started_at now q) else get rg q.id)
          ((String_comparable.same_iff q.id q.id).1 refl)

  get-admit-old :
      (id : String) (r : RunRecord) → get rg id ≡ some r → get (admit now q rg) id ≡ some r
  get-admit-old id r e = elim (Bool-cases (q.id == id)) [
    | inl f ↦ cc (ap (get rg) ((String_comparable.same_iff q.id id).0 f), fresh, e)
    | inr f ↦ get-admit id ∙ ap (λ b. if b then some (started_at now q) else get rg id) f ∙ e
  ]

  -- A held run is the new one, or one that was held.
  get-admit-cases :
      (id : String) (r : RunRecord)
      → get (admit now q rg) id ≡ some r
      → (q.id ≡ id) × (started_at now q ≡ r) ⊎ (get rg id ≡ some r)
  get-admit-cases id r e = elim (Bool-cases (q.id == id)) [
    | inl f ↦
        let own : get (admit now q rg) id ≡ some (started_at now q) =
          get-admit id ∙ ap (λ b. if b then some (started_at now q) else get rg id) f in
        inl ((String_comparable.same_iff q.id id).0 f, cc (own, e))
    | inr f ↦
        inr (sym (get-admit id ∙ ap (λ b. if b then some (started_at now q) else get rg id) f) ∙ e)
  ]

  by_key-admit : (admit now q rg).by_key ≡ index_by q.key q.id rg.by_key
  unfolding admit
  by_key-admit = refl

  pub by_source-admit : (admit now q rg).by_source ≡ index_by q.source_run_id q.id rg.by_source
  unfolding admit
  by_source-admit = refl

  order-admit : (admit now q rg).order ≡ rg.order ++ (q.id ∷ [])
  unfolding admit
  order-admit = refl

  admit-sole :
      ((q.source_run_id == "") ≡ false → lookup q.source_run_id rg.by_source ≡ none)
      → (id : String) (r : RunRecord) → get (admit now q rg) id ≡ some r
      → (r.source_run_id == "") ≡ false
      → lookup r.source_run_id (index_by q.source_run_id q.id rg.by_source) ≡ some id
  admit-sole first id r e full = elim (get-admit-cases id r e) [
    | inl (own, same) ↦
        let src : q.source_run_id ≡ r.source_run_id =
          ap (λ (x : RunRecord). x.source_run_id) same in
        let full_q : (q.source_run_id == "") ≡ false = ap (λ s. s == "") src ∙ full in
        let hit : (not (q.source_run_id == "") && q.source_run_id == r.source_run_id) ≡ true =
          ground
            (arith, full_q, (String_comparable.same_iff q.source_run_id r.source_run_id).1 src) in
        lookup-index_by q.source_run_id q.id r.source_run_id rg.by_source
        ∙ ap (λ b. if b then some q.id else lookup r.source_run_id rg.by_source) hit
        ∙ ap some own
    | inr old ↦
        let before = h.indexed.sole id r old full in
        lookup-index_by q.source_run_id q.id r.source_run_id rg.by_source
        ∙ elim (Bool-cases (not (q.source_run_id == "") && q.source_run_id == r.source_run_id)) [
          | inl f ↦
              let src : q.source_run_id ≡ r.source_run_id =
                (String_comparable.same_iff q.source_run_id r.source_run_id).0
                  (ground (arith, f)) in
              cc (first (ground (arith, f)), ap (λ s. lookup s rg.by_source) src, before)
          | inr f ↦
              ap (λ b. if b then some q.id else lookup r.source_run_id rg.by_source) f ∙ before
        ]
  ]

  pub admit-IsWellFormed :
      ((q.source_run_id == "") ≡ false → lookup q.source_run_id rg.by_source ≡ none)
      → IsWellFormed (admit now q rg)
  admit-IsWellFormed first = record {
    indexed = record {
      named = λ id r e. elim (get-admit-cases id r e) [
        | inl (own, same) ↦ ap (λ (x : RunRecord). x.id) (sym same) ∙ own
        | inr old ↦ h.indexed.named id r old
      ];
      keyed = λ k id e.
          elim (index_by-entry q.key q.id k id rg.by_key (ap (lookup k) (sym by_key-admit) ∙ e)) [
            | inl (full, key, own) ↦ (
              subst (λ x. (x == "") ≡ false) key full,
              started_at now q,
              ap (get (admit now q rg)) (sym own) ∙ get-admit-own,
              key,
            )
            | inr old ↦
                let (full, r, held, same) = h.indexed.keyed k id old in
                (full, r, get-admit-old id r held, same)
          ];
      sourced = λ k id e.
          elim (index_by-entry q.source_run_id q.id k id rg.by_source
            (ap (lookup k) (sym by_source-admit) ∙ e)) [
              | inl (full, key, own) ↦ (
                subst (λ x. (x == "") ≡ false) key full,
                started_at now q,
                ap (get (admit now q rg)) (sym own) ∙ get-admit-own,
                key,
              )
              | inr old ↦
                  let (full, r, held, same) = h.indexed.sourced k id old in
                  (full, r, get-admit-old id r held, same)
            ];
      sole =
          λ id r e full. ap (lookup r.source_run_id) by_source-admit ∙ admit-sole first id r e full;
    };
    unique =
        rw order-admit (IsUnique-snoc rg.order q.id h.unique (h.listed q.id ∙ ap some_run fresh));
    listed = λ id.
        ap (λ ids. contains ids id) order-admit
        ∙ contains-append rg.order (q.id ∷ []) id
        ∙ elim (Bool-cases (q.id == id)) [
          | inl f ↦ rw (get-admit id, f) (ground (arith, f))
          | inr f ↦ rw (get-admit id, f, h.listed id) (ground (arith, f))
        ];
  }
