-- ===== src/Base/Text.antt =====
-- What the program uses of Go's package strings, on texts read as lists of code points.
use Prim.Native.Char.{code}
use Prim.Native.Nat.{ℕ}
use Prim.Native.String.{String}
use mathlib.Core.Path.{◌≡◌, refl, ap₂}
use mathlib.Core.Bool.{Bool, true, false, ◌&&◌, ◌||◌}
use native.Mathlib.Omega.{arith}
use text.Mathlib.TextEquality.{Char-path}
use aimesh.Base.Tests.{ltb, leb, eqb, ◌==◌, String_comparable, if◌then◌else◌}

-- `unicode.IsSpace`
is_space : ℕ → Bool
is_space c =
    (leb 9 c && leb c 13)
    || eqb c 32
    || eqb c 0x85
    || eqb c 0xA0
    || eqb c 0x1680
    || (leb 0x2000 c && leb c 0x200A)
    || eqb c 0x2028
    || eqb c 0x2029
    || eqb c 0x202F
    || eqb c 0x205F
    || eqb c 0x3000

-- `strings.TrimRight` of the spaces
trim_right : String → String
unfolding is_space
trim_right String.[] = String.[]
trim_right (String.◌∷◌ c s) =
    let rest = trim_right s in
    if is_space (code c) && rest == String.[] then String.[] else String.◌∷◌ c rest

-- `strings.TrimSpace`
unfoldable pub trim_space : String → String
unfolding trim_right
trim_space String.[] = String.[]
trim_space (String.◌∷◌ c s) =
    let rest = trim_space s in if is_space (code c) then rest else trim_right (String.◌∷◌ c s)

-- `strings.TrimSpace(s) == ""`
unfoldable pub is_blank : String → Bool
unfolding trim_space
is_blank s = trim_space s == ""

-- `a < b` on Go strings: the order of the UTF-8 bytes, which is that of the code points.
unfoldable pub text_lt : String → String → Bool
text_lt String.[] String.[] = false
text_lt String.[] (String.◌∷◌ d t) = true
text_lt (String.◌∷◌ c s) String.[] = false
text_lt (String.◌∷◌ c s) (String.◌∷◌ d t) =
    ltb (code c) (code d) || (eqb (code c) (code d) && text_lt s t)

pub text_lt_irrefl : (s : String) → text_lt s s ≡ false
unfolding text_lt
text_lt_irrefl String.[] = refl
text_lt_irrefl (String.◌∷◌ c s) = ground (arith, text_lt_irrefl s)

-- Of two texts neither of which is below the other, both are the same.
pub text_lt_tight : (s t : String) → text_lt s t ≡ false → text_lt t s ≡ false → s ≡ t
unfolding text_lt
text_lt_tight String.[] String.[] h k = refl
text_lt_tight String.[] (String.◌∷◌ d t) h k = cc
text_lt_tight (String.◌∷◌ c s) String.[] h k = cc
text_lt_tight (String.◌∷◌ c s) (String.◌∷◌ d t) h k =
    ap₂ String.◌∷◌ (Char-path c d (ground arith)) (text_lt_tight s t (ground arith) (ground arith))

-- What is not below `b`, which is not below `a`, is not below `a`.
pub text_lt_chain :
    (a b c : String) → text_lt b a ≡ false → text_lt c b ≡ false → text_lt c a ≡ false
unfolding text_lt
text_lt_chain String.[] String.[] String.[] h k = refl
text_lt_chain String.[] String.[] (String.◌∷◌ z r) h k = refl
text_lt_chain String.[] (String.◌∷◌ y t) String.[] h k = cc
text_lt_chain String.[] (String.◌∷◌ y t) (String.◌∷◌ z r) h k = refl
text_lt_chain (String.◌∷◌ x s) String.[] c h k = cc
text_lt_chain (String.◌∷◌ x s) (String.◌∷◌ y t) String.[] h k = cc
text_lt_chain (String.◌∷◌ x s) (String.◌∷◌ y t) (String.◌∷◌ z r) h k =
    ground (arith, text_lt_chain s t r)

pub text_lt_asym : (s t : String) → text_lt s t ≡ true → text_lt t s ≡ false
unfolding text_lt
text_lt_asym String.[] String.[] h = refl
text_lt_asym String.[] (String.◌∷◌ d t) h = refl
text_lt_asym (String.◌∷◌ c s) String.[] h = cc
text_lt_asym (String.◌∷◌ c s) (String.◌∷◌ d t) h = ground (arith, text_lt_asym s t)

trim_both : trim_space " a b \n" ≡ "a b"
unfolding trim_space
trim_both = refl

blank_spaces : is_blank " \t" ≡ true
unfolding is_blank
blank_spaces = refl
