-- ===== src/Base/Int.antt =====
-- Go's signed `int` where a value may be negative (a uid, a pid): the integers by their sign.
use Prim.Native.Nat.{ℕ, ◌+◌}
use mathlib.Core.Path.{◌≡◌}
use mathlib.Core.Logic.{◌↔◌}
use mathlib.Core.Bool.{Bool, true, false}
use mathlib.Core.List.{◌∷◌}
use native.Mathlib.Omega.{arith}
use abstraction_identity.Base.Tests.{◌==◌}
use abstraction_identity.Base.Strings.{Str, decimal}

-- `negsuc n` is -(n + 1).
pub data ℤ : Type 0 where
  pos : ℕ → ℤ
  negsuc : ℕ → ℤ

abbrev pub int_eq : ℤ → ℤ → Bool
int_eq (pos m) (pos n) = m == n
int_eq (negsuc m) (negsuc n) = m == n
int_eq _ _ = false

abbrev pub is_negative : ℤ → Bool
is_negative (pos n) = false
is_negative (negsuc n) = true

-- `i <= 0`
abbrev pub is_nonpositive : ℤ → Bool
is_nonpositive (pos n) = n == 0
is_nonpositive (negsuc n) = true

-- `%d`
abbrev pub decimal_int : ℤ → Str
decimal_int (pos n) = decimal n
decimal_int (negsuc n) = b'-' ∷ decimal (n + 1)

pub int_eq_iff : (i j : ℤ) → (int_eq i j ≡ true) ↔ (i ≡ j)
int_eq_iff (pos m) (pos n) = (λ h. ground arith, λ h. ground arith)
int_eq_iff (pos m) (negsuc n) = (λ h. ground arith, λ h. ground arith)
int_eq_iff (negsuc m) (pos n) = (λ h. ground arith, λ h. ground arith)
int_eq_iff (negsuc m) (negsuc n) = (λ h. ground arith, λ h. ground arith)
