-- ===== src/Base/Strings.antt =====
-- Go strings as lists of bytes: literals, equality, decimal numbers.
use Prim.Native.Nat.{ℕ, zero, suc, ◌+◌, ◌/◌, ◌%◌}
use Prim.Native.Char.{code}
use Prim.Native.String.{String}
use mathlib.Core.Path.{◌≡◌, refl}
use mathlib.Core.Bool.{Bool, true, false, ◌&&◌}
use mathlib.Core.List.{List, [], ◌∷◌}
use native.Mathlib.Omega.{arith}
use abstraction_identity.Base.Tests.{◌==◌, ltb, if◌then◌else◌}

abbrev pub Str : Type 0
Str = List ℕ

-- A literal; every literal here is ASCII.
abbrev pub codes : String → Str
codes String.[] = []
codes (String.◌∷◌ c s) = code c ∷ codes s

-- Go's `==` on strings.
abbrev pub str_eq : Str → Str → Bool
str_eq [] [] = true
str_eq [] (y ∷ ys) = false
str_eq (x ∷ xs) [] = false
str_eq (x ∷ xs) (y ∷ ys) = x == y && str_eq xs ys

abbrev pub is_empty : Str → Bool
is_empty [] = true
is_empty (x ∷ xs) = false

pub str_eq→eq : (a b : Str) → str_eq a b ≡ true → a ≡ b
str_eq→eq [] [] h = refl
str_eq→eq [] (y ∷ ys) h = ground arith
str_eq→eq (x ∷ xs) [] h = ground arith
str_eq→eq (x ∷ xs) (y ∷ ys) h = ground (arith, str_eq→eq xs ys)

pub str_eq_refl : (a : Str) → str_eq a a ≡ true
str_eq_refl [] = refl
str_eq_refl (x ∷ xs) = ground (arith, str_eq_refl xs)

pub eq→str_eq : (a b : Str) → a ≡ b → str_eq a b ≡ true
eq→str_eq a b e = rw e (str_eq_refl b)

pub str_eq_sym : (a b : Str) → str_eq a b ≡ str_eq b a
str_eq_sym [] [] = refl
str_eq_sym [] (y ∷ ys) = refl
str_eq_sym (x ∷ xs) [] = refl
str_eq_sym (x ∷ xs) (y ∷ ys) = ground (arith, str_eq_sym xs ys)

-- Decimal digits; twenty rounds are enough for any uint64.
pub decimal_loop : ℕ → ℕ → Str → Str
decimal_loop zero n acc = acc
decimal_loop (suc f) n acc =
    let rest = decimal_loop f (n / 10) ((b'0' + n % 10) ∷ acc) in
    if ltb n 10 then (b'0' + n) ∷ acc else rest

unfoldable pub decimal : ℕ → Str
unfolding decimal_loop
decimal n = decimal_loop 20 n []
