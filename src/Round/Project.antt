-- ===== src/Round/Project.antt =====
-- `Project` and `clipUTF8` of round.go. The text of an item is its bytes.
pub mod Bounds
use aimesh.Base.{
  ℕ, zero, suc, ◌+◌, ◌≤◌, String, Bool, true, false, not, ◌&&◌, ◌||◌, List, [], ◌∷◌, ◌++◌, length,
  ltb, leb, if◌then◌else◌,
}
use aimesh.Schema.{ExplorerIdentity}

pub record Item : Type 0 where
  pub ref : String
  pub text : List ℕ
  pub attribution : List ExplorerIdentity
  pub truncated : Bool

pub record Payload : Type 0 where
  pub items : List Item
  pub omitted_items : ℕ
  pub truncated_items : ℕ

pub record Caps : Type 0 where
  pub max_items : ℕ
  pub max_item_bytes : ℕ
  pub max_total_bytes : ℕ

abbrev pub default_caps : Caps
default_caps = record { max_items = 200; max_item_bytes = 512; max_total_bytes = 65536 }

-- `utf8.RuneStart`
abbrev pub rune_start : ℕ → Bool
rune_start b = ltb b 128 || leb 192 b

-- `s[i]`, which the code reads inside the text only.
abbrev pub byte_at : List ℕ → ℕ → ℕ
byte_at [] i = 0
byte_at (b ∷ bs) zero = b
byte_at (b ∷ bs) (suc i) = byte_at bs i

abbrev pub take : ℕ → List ℕ → List ℕ
take zero bs = []
take (suc n) [] = []
take (suc n) (b ∷ bs) = b ∷ take n bs

-- `for n > 0 && !utf8.RuneStart(s[n]) { n-- }`
back_off : List ℕ → ℕ → ℕ
back_off s zero = zero
back_off s (suc n) =
    let less = back_off s n in if rune_start (byte_at s (suc n)) then suc n else less

unfoldable pub clip_utf8 : List ℕ → ℕ → List ℕ
unfolding back_off
clip_utf8 s n = if leb (length s) n then s else take (back_off s n) s

-- The loop's variables.
pub record Projecting : Type 0 where
  pub out : Payload
  pub total : ℕ

abbrev pub effective : Caps → Caps
effective c =
    if leb c.max_items 0 || leb c.max_item_bytes 0 || leb c.max_total_bytes 0
    then default_caps
    else c

-- The text after the item cap, and what it leaves of the item and of the count.
abbrev pub clipped : Caps → Item → Item
clipped c it =
    if ltb c.max_item_bytes (length it.text)
    then record it { text = clip_utf8 it.text c.max_item_bytes; truncated = true }
    else it

abbrev pub clip_count : Caps → Item → ℕ
clip_count c it = if ltb c.max_item_bytes (length it.text) then 1 else 0

project_item : Caps → Item → Projecting → Projecting
project_item c it p =
    let text = (clipped c it).text in
    let counted = p.out.truncated_items + clip_count c it in
    if leb c.max_items (length p.out.items)
    then record p { out = record p.out { omitted_items = suc p.out.omitted_items } }
    else if ltb c.max_total_bytes (p.total + length text)
    then record p {
      out = record p.out { omitted_items = suc p.out.omitted_items; truncated_items = counted };
    }
    else record {
      out = record p.out { items = p.out.items ++ (clipped c it ∷ []); truncated_items = counted };
      total = p.total + length text;
    }

project_items : Caps → List Item → Projecting → Projecting
unfolding project_item
project_items c [] p = p
project_items c (it ∷ its) p = project_items c its (project_item c it p)

abbrev pub nothing_projected : Projecting
nothing_projected = record {
  out = record { items = []; omitted_items = 0; truncated_items = 0 };
  total = 0;
}

unfoldable pub project : List Item → Caps → Payload
unfolding project_items clip_utf8
project items c = (project_items (effective c) items nothing_projected).out
