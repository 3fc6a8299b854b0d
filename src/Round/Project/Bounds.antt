-- ===== src/Round/Project/Bounds.antt =====
-- What the caps promise of a projection.
use aimesh.Base.{
  ℕ, zero, suc, ◌+◌, ◌≤◌, ◌<◌, ◌≡◌, ◌⊎◌, inl, inr, refl, true, false, Bool-cases, List, [], ◌∷◌,
  ◌++◌, length, length-append, leb, All, All-append, arith,
}
use aimesh.Round.Project.{
  Item, Payload, Caps, Projecting, rune_start, byte_at, take, back_off, clip_utf8, effective,
  clipped, project_item, project_items, nothing_projected, project,
}

length-take : (n : ℕ) (bs : List ℕ) → length (take n bs) ≤ n
length-take zero bs = omega arith
length-take (suc n) [] = omega arith
length-take (suc n) (b ∷ bs) = omega (arith, length-take n bs)

back_off-le : (s : List ℕ) (n : ℕ) → back_off s n ≤ n
unfolding back_off
back_off-le s zero = omega arith
back_off-le s (suc n) = ground (arith, back_off-le s n)

back_off_boundary :
    (s : List ℕ) (n : ℕ) → (back_off s n ≡ 0) ⊎ (rune_start (byte_at s (back_off s n)) ≡ true)
unfolding back_off
back_off_boundary s zero = inl refl
back_off_boundary s (suc n) = elim (Bool-cases (rune_start (byte_at s (suc n)))) [
  | inl h ↦ inr (rw (h, back_off) h)
  | inr h ↦ rw (h, back_off) (back_off_boundary s n)
]

back_off_longest :
    (s : List ℕ) (n j : ℕ) → back_off s n < j → j ≤ n → rune_start (byte_at s j) ≡ false
unfolding back_off
back_off_longest s zero j p q = absurd (omega (arith, p, q))
back_off_longest s (suc n) j p q = elim (Bool-cases (rune_start (byte_at s (suc n)))) [
  | inl h ↦ absurd (ground (arith, h, p, q))
  | inr h ↦ elim (Bool-cases (leb j n)) [
    | inl k ↦ back_off_longest s n j (ground (arith, h, p)) (ground (arith, k))
    | inr k ↦ let last : j ≡ suc n = ground (arith, k, q) in rw last h
  ]
]

pub length-clip_utf8 : (s : List ℕ) (n : ℕ) → length (clip_utf8 s n) ≤ n
unfolding clip_utf8
length-clip_utf8 s n = ground (arith, length-take (back_off s n) s, back_off-le s n)

abbrev pub total_bytes : List Item → ℕ
total_bytes [] = 0
total_bytes (it ∷ its) = length it.text + total_bytes its

total_bytes-append : (xs ys : List Item) → total_bytes (xs ++ ys) ≡ total_bytes xs + total_bytes ys
total_bytes-append [] ys = omega arith
total_bytes-append (x ∷ xs) ys = omega (arith, total_bytes-append xs ys)

module _ (c : Caps) where
  -- What holds of the loop's variables after `n` items.
  record IsBounded (n : ℕ) (p : Projecting) : Type 0 where
    few : length p.out.items ≤ c.max_items
    small : All (λ it. length it.text ≤ c.max_item_bytes) p.out.items
    light : p.total ≤ c.max_total_bytes
    weighed : p.total ≡ total_bytes p.out.items
    accounted : length p.out.items + p.out.omitted_items ≡ n

  clipped_small : (it : Item) → length (clipped c it).text ≤ c.max_item_bytes
  clipped_small it = ground (arith, length-clip_utf8 it.text c.max_item_bytes)

  small-append :
      (its : List Item) (it : Item)
      → All (λ it. length it.text ≤ c.max_item_bytes) its
      → All (λ it. length it.text ≤ c.max_item_bytes) (its ++ (clipped c it ∷ []))
  small-append its it h =
      All-append (λ it. length it.text ≤ c.max_item_bytes) its (clipped c it ∷ []) h
        (clipped_small it, tt)

  project_item-IsBounded :
      (it : Item) (n : ℕ) (p : Projecting) → IsBounded n p → IsBounded (suc n) (project_item c it p)
  unfolding project_item
  project_item-IsBounded it n p h = ground (
    arith,
    small-append p.out.items it h.small,
    length-append p.out.items (clipped c it ∷ []),
    total_bytes-append p.out.items (clipped c it ∷ []),
  )

  project_items-IsBounded :
      (its : List Item) (n : ℕ) (p : Projecting)
      → IsBounded n p
      → IsBounded (n + length its) (project_items c its p)
  unfolding project_items
  project_items-IsBounded [] n p h = record {
    few = h.few;
    small = h.small;
    light = h.light;
    weighed = h.weighed;
    accounted = omega (arith, h.accounted);
  }
  project_items-IsBounded (it ∷ its) n p h =
      let later =
        project_items-IsBounded its (suc n) (project_item c it p)
          (project_item-IsBounded it n p h) in
      record {
        few = later.few;
        small = later.small;
        light = later.light;
        weighed = later.weighed;
        accounted = omega (arith, later.accounted);
      }

-- What a projection of `items` under `c` is allowed.
pub record IsWithin (c : Caps) (items : List Item) (p : Payload) : Type 0 where
  pub few : length p.items ≤ (effective c).max_items
  pub small : All (λ it. length it.text ≤ (effective c).max_item_bytes) p.items
  pub light : total_bytes p.items ≤ (effective c).max_total_bytes
  pub accounted : length p.items + p.omitted_items ≡ length items

-- A projection keeps to the three caps in force (the defaults, if a given cap is 0), and every item is
-- either kept or counted as omitted.
pub project-IsWithin : (items : List Item) (c : Caps) → IsWithin c items (project items c)
unfolding project
project-IsWithin items c =
    let h = project_items-IsBounded (effective c) items 0 nothing_projected (record {
      few = omega arith;
      small = tt;
      light = omega arith;
      weighed = refl;
      accounted = refl;
    }) in
    record {
      few = h.few;
      small = h.small;
      light = omega (arith, h.light, h.weighed);
      accounted = omega (arith, h.accounted);
    }

-- The front part of `s` of `k` bytes is the longest of at most `n` bytes that ends where a character
-- starts (or is empty).
pub record IsCut (s : List ℕ) (n k : ℕ) : Type 0 where
  pub fits : k ≤ n
  pub boundary : (k ≡ 0) ⊎ (rune_start (byte_at s k) ≡ true)
  pub longest : (j : ℕ) → k < j → j ≤ n → rune_start (byte_at s j) ≡ false

-- A text of at most `n` bytes is left whole; a longer one is clipped to its longest front part of at
-- most `n` bytes after which a character starts, or to nothing where there is none.
pub clip_utf8_boundary :
    (s : List ℕ) (n : ℕ)
    → ((length s ≤ n) × (clip_utf8 s n ≡ s))
      ⊎ ((n < length s) × (k : ℕ) × (clip_utf8 s n ≡ take k s) × IsCut s n k)
unfolding clip_utf8
clip_utf8_boundary s n = elim (Bool-cases (leb (length s) n)) [
  | inl h ↦ inl (ground (arith, h), rw h)
  | inr h ↦ inr (
    ground (arith, h),
    back_off s n,
    rw h,
    record {
      fits = back_off-le s n;
      boundary = back_off_boundary s n;
      longest = back_off_longest s n;
    },
  )
]
