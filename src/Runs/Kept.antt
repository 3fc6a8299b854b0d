-- ===== src/Runs/Kept.antt =====
-- The order of the registry after the loops of `evictLocked`.
use mathlib.Core.Path.{subst}
use aimesh.Base.{
  ◌≡◌, refl, sym, ap, ◌∙◌, String, Bool, true, false, Bool-cases, ◌&&◌, List, Option, none, some,
  inl, inr, arith, ◌==◌, String_comparable,
}
use aimesh.Base.Sets.{contains, IsUnique}
use aimesh.Runs.{RunRecord, Registry, get, drop}
use aimesh.Runs.Pruned.{
  Pruned, rest_kept, one_kept, one_missing, one_dropped, IsNamed, drop-IsNamed, get-drop-gone,
  get-drop-other, Pruned-elsewhere,
}

abbrev pub some_run : Option RunRecord → Bool
some_run none = false
some_run (some r) = true

abbrev pub is_held : Registry → String → Bool
is_held rg id = some_run (get rg id)

-- The runs of a list are held.
abbrev pub IsAllHeld : List String → Registry → Type 0
IsAllHeld ids rg = (id : String) → contains ids id ≡ true → is_held rg id ≡ true

-- Another run than one that is listed elsewhere.
pub apart :
    (id x : String) (ids : List String)
    → contains ids id ≡ false
    → contains ids x ≡ true
    → (id == x) ≡ false
apart id x ids h k = elim (Bool-cases (id == x)) [
  | inl e ↦ cc (h, k, (String_comparable.same_iff id x).0 e)
  | inr e ↦ e
]

-- What a loop keeps of the order are the runs that are still held.
pub Pruned-order :
    {ids ids' : List String} {rg rg' : Registry} (p : Pruned ids rg ids' rg')
    → IsNamed rg
    → IsUnique ids
    → IsAllHeld ids rg
    → IsUnique ids' × ((x : String) → contains ids' x ≡ (contains ids x && is_held rg' x))
Pruned-order {ids} {ids'} {rg} {rg'} rest_kept named u h =
    (u, λ x. elim (Bool-cases (contains ids x)) [ inl e ↦ rw (e, h x e) refl | inr e ↦ rw e refl ])
Pruned-order {rg = rg} {rg' = rg'} (one_kept {ids} {ids'} id p) named u h =
    let (unique, listed) = Pruned-order p named u.1 (λ x e. h x (rw e (ground arith))) in
    let stays : is_held rg' id ≡ true =
      ap some_run (Pruned-elsewhere p id named u.0)
      ∙ h id (ground (arith, String_comparable.same_iff id id)) in
    (
      (listed id ∙ rw u.0 refl, unique),
      λ x. elim (Bool-cases (id == x)) [
        | inl e ↦
            let same : id ≡ x = (String_comparable.same_iff id x).0 e in
            let held_x : is_held rg' x ≡ true = ap (is_held rg') (sym same) ∙ stays in
            rw (e, held_x) refl
        | inr e ↦ rw e (listed x)
      ],
    )
Pruned-order {rg = rg} (one_missing id none_here p) named u h =
    let here = h id (ground (arith, String_comparable.same_iff id id)) in cc (here, none_here)
Pruned-order {rg = rg} {rg' = rg'} (one_dropped {ids} {ids'} id r held done p) named u h =
    let name = named id r held in
    let still : IsAllHeld ids (drop r rg) = λ x e.
      ap some_run
        (get-drop-other r rg x (subst (λ y. (y == x) ≡ false) (sym name) (apart id x ids u.0 e)))
      ∙ h x (rw e (ground arith)) in
    let (unique, listed) = Pruned-order p (drop-IsNamed r rg named) u.1 still in
    let gone : is_held rg' id ≡ false = ap some_run (
      Pruned-elsewhere p id (drop-IsNamed r rg named) u.0
      ∙ get-drop-gone r rg id ((String_comparable.same_iff r.id id).1 name)) in
    (
      unique,
      λ x. elim (Bool-cases (id == x)) [
        | inl e ↦
            let same : id ≡ x = (String_comparable.same_iff id x).0 e in
            let gone_x : is_held rg' x ≡ false = ap (is_held rg') (sym same) ∙ gone in
            listed x ∙ rw (e, gone_x) (ground arith)
        | inr e ↦ rw e (listed x)
      ],
    )
