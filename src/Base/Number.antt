-- ===== src/Base/Number.antt =====
-- Printing of numbers, `fmt.Sprintf("%d", n)`, and the texts that are built from them.
use Prim.Native.Char.{Char, code}
use Prim.Native.Nat.{ℕ, zero, suc, ◌+◌, ◌-◌, ◌*◌, ◌/◌, ◌%◌, ◌<◌}
use Prim.Native.String.{String}
use mathlib.Core.Path.{◌≡◌, refl, sym, ap, ◌∙◌}
use native.Mathlib.Omega.{arith}
use mathlib.Core.Bool.{Bool, true, ◌&&◌}
use aimesh.Base.Tests.{ltb, leb, if◌then◌else◌}

-- `s + t` on Go strings
infixr 66 ◌<>◌
unfoldable pub ◌<>◌ : String → String → String
String.[] <> t = t
(String.◌∷◌ c s) <> t = String.◌∷◌ c (s <> t)

pub append_text-cancel : (p s t : String) → p <> s ≡ p <> t → s ≡ t
unfolding ◌<>◌
append_text-cancel String.[] s t e = e
append_text-cancel (String.◌∷◌ c p) s t e = append_text-cancel p s t (cc)

append_text-nil : (s : String) → s <> "" ≡ s
unfolding ◌<>◌
append_text-nil String.[] = refl
append_text-nil (String.◌∷◌ c s) = ap (String.◌∷◌ c) (append_text-nil s)

digit : ℕ → Char
digit zero = "0"
digit (suc zero) = "1"
digit (suc (suc zero)) = "2"
digit (suc (suc (suc zero))) = "3"
digit (suc (suc (suc (suc zero)))) = "4"
digit (suc (suc (suc (suc (suc zero))))) = "5"
digit (suc (suc (suc (suc (suc (suc zero)))))) = "6"
digit (suc (suc (suc (suc (suc (suc (suc zero))))))) = "7"
digit (suc (suc (suc (suc (suc (suc (suc (suc zero)))))))) = "8"
digit _ = "9"

-- The digits of `n` before `rest`; the fuel `n + 1` exceeds the number of digits.
print_before : ℕ → ℕ → String → String
unfolding digit
print_before zero n rest = rest
print_before (suc f) n rest =
    let here = String.◌∷◌ (digit (n % 10)) rest in
    let more = print_before f (n / 10) here in if ltb n 10 then here else more

unfoldable pub decimal : ℕ → String
unfolding print_before
decimal n = print_before (n + 1) n String.[]

abbrev is_digit : Char → Bool
is_digit c = leb 48 (code c) && leb (code c) 57

-- The number that the digits in front stand for, after the digits of `acc`.
pub value : ℕ → String → ℕ
value acc String.[] = acc
value acc (String.◌∷◌ c s) =
    let more = value (acc * 10 + (code c - 48)) s in if is_digit c then more else acc

-- What follows the digits in front.
pub skip : String → String
skip String.[] = String.[]
skip (String.◌∷◌ c s) = let rest = skip s in if is_digit c then rest else String.◌∷◌ c s

code-digit : (d : ℕ) → d < 10 → (code (digit d) - 48 ≡ d) × (is_digit (digit d) ≡ true)
unfolding digit
code-digit zero h = (refl, refl)
code-digit (suc zero) h = (refl, refl)
code-digit (suc (suc zero)) h = (refl, refl)
code-digit (suc (suc (suc zero))) h = (refl, refl)
code-digit (suc (suc (suc (suc zero)))) h = (refl, refl)
code-digit (suc (suc (suc (suc (suc zero))))) h = (refl, refl)
code-digit (suc (suc (suc (suc (suc (suc zero)))))) h = (refl, refl)
code-digit (suc (suc (suc (suc (suc (suc (suc zero))))))) h = (refl, refl)
code-digit (suc (suc (suc (suc (suc (suc (suc (suc zero)))))))) h = (refl, refl)
code-digit (suc (suc (suc (suc (suc (suc (suc (suc (suc zero))))))))) h = (refl, refl)
code-digit (suc (suc (suc (suc (suc (suc (suc (suc (suc (suc d)))))))))) h = absurd (omega arith)

value-print_before :
    (f n : ℕ) (rest : String) → n < f → value 0 (print_before f n rest) ≡ value n rest
unfolding value print_before
value-print_before zero n rest h = absurd (omega arith)
value-print_before (suc f) n rest h =
    ground
      (arith, code-digit (n % 10), value-print_before f (n / 10) (String.◌∷◌ (digit (n % 10)) rest))

skip-print_before : (f n : ℕ) (rest : String) → skip (print_before f n rest) ≡ skip rest
unfolding skip print_before
skip-print_before zero n rest = refl
skip-print_before (suc f) n rest =
    ground
      (arith, code-digit (n % 10), skip-print_before f (n / 10) (String.◌∷◌ (digit (n % 10)) rest))

print_before-append :
    (f n : ℕ) (rest t : String) → print_before f n rest <> t ≡ print_before f n (rest <> t)
unfolding print_before ◌<>◌
print_before-append zero n rest t = refl
print_before-append (suc f) n rest t =
    ground (arith, print_before-append f (n / 10) (String.◌∷◌ (digit (n % 10)) rest) t)

-- A text that does not go on with a digit.
abbrev pub EndsNumber : String → Type 0
EndsNumber t = (skip t ≡ t) × ((n : ℕ) → value n t ≡ n)

EndsNumber-nil : EndsNumber ""
unfolding skip value
EndsNumber-nil = (refl, λ n. refl)

-- A number and what follows it are read back from the text.
pub decimal_cancel :
    (m n : ℕ) (s t : String)
    → EndsNumber s
    → EndsNumber t
    → decimal m <> s ≡ decimal n <> t
    → (m ≡ n) × (s ≡ t)
unfolding decimal ◌<>◌
decimal_cancel m n s t es et e = (
  sym (es.1 m)
      ∙ (sym (value-print_before (m + 1) m s (omega arith))
          ∙ ap (value 0) e'
          ∙ value-print_before (n + 1) n t (omega arith))
      ∙ et.1 n,
  sym es.0
      ∙ (sym (skip-print_before (m + 1) m s) ∙ ap skip e' ∙ skip-print_before (n + 1) n t)
      ∙ et.0,
)
  where
    e' : print_before (m + 1) m s ≡ print_before (n + 1) n t
    e' =
        sym (print_before-append (m + 1) m String.[] s)
        ∙ e
        ∙ print_before-append (n + 1) n String.[] t

pub EndsNumber-colon : (t : String) → EndsNumber (":envelope#" <> t)
unfolding skip value ◌<>◌
EndsNumber-colon t = (refl, λ n. refl)

-- Different numbers are printed differently.
pub decimal-injective : (m n : ℕ) → decimal m ≡ decimal n → m ≡ n
decimal-injective m n e =
    (decimal_cancel m n "" "" EndsNumber-nil EndsNumber-nil
      (append_text-nil (decimal m) ∙ e ∙ sym (append_text-nil (decimal n)))).0

decimal_runs : decimal 1207 ≡ "1207"
unfolding decimal
decimal_runs = refl
