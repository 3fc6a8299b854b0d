-- ===== src/Base/Int.antt =====
-- Go's `int` where the value comes from a model and may be negative, under the library's names.
use Prim.Native.Nat.{ℕ}
use mathlib.Core.Path.{◌≡◌}
use mathlib.Core.Logic.{◌↔◌}
use mathlib.Core.Bool.{Bool, true, false}
use native.Mathlib.Omega.{arith}
use aimesh.Base.Tests.{eqb, Comparable}

-- `negsuc n` is -(n + 1).
pub data ℤ : Type 0 where
  pos : ℕ → ℤ
  negsuc : ℕ → ℤ

abbrev pub same_int : ℤ → ℤ → Bool
same_int (pos m) (pos n) = eqb m n
same_int (negsuc m) (negsuc n) = eqb m n
same_int (pos m) (negsuc n) = false
same_int (negsuc m) (pos n) = false

pub same_int_iff : (a b : ℤ) → (same_int a b ≡ true) ↔ (a ≡ b)
same_int_iff a b = ground arith

instance abbrev pub ℤ_comparable : Comparable ℤ
ℤ_comparable = record { same = same_int; same_iff = same_int_iff }
