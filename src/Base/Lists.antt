-- ===== src/Base/Lists.antt =====
-- Lists measured and cut by native numbers, under the library's names.
use Prim.Native.Nat.{ℕ, zero, suc, ◌+◌, ◌-◌, ◌≤◌, min}
use mathlib.Core.Path.{◌≡◌, refl, ap}
use mathlib.Core.List.{List, [], ◌∷◌, ◌++◌}
use mathlib.Core.Option.{Option, none, some}
use native.Mathlib.Nat.{
  zero-add, add-zero, suc-add, zero-min, min-zero, suc-min-suc, sub-zero, suc-sub-suc,
}
use native.Mathlib.Omega.{arith}

module _ {ℓ} {A : Type ℓ} where
  abbrev pub length : List A → ℕ
  length [] = 0
  length (x ∷ xs) = suc (length xs)

  abbrev pub get_elem? : List A → ℕ → Option A
  get_elem? [] i = none
  get_elem? (x ∷ xs) zero = some x
  get_elem? (x ∷ xs) (suc i) = get_elem? xs i

  abbrev pub take : ℕ → List A → List A
  take zero xs = []
  take (suc n) [] = []
  take (suc n) (x ∷ xs) = x ∷ take n xs

  abbrev pub drop : ℕ → List A → List A
  drop zero xs = xs
  drop (suc n) [] = []
  drop (suc n) (x ∷ xs) = drop n xs

  abbrev pub All {κ} : (A → Type κ) → List A → Type κ
  All P [] = Unit {κ}
  All P (x ∷ xs) = P x × All P xs

module _ {ℓ} {A : Type ℓ} where
  pub length-append : (xs ys : List A) → length (xs ++ ys) ≡ length xs + length ys
  length-append [] ys = omega arith
  length-append (x ∷ xs) ys = omega (arith, length-append xs ys)

  pub take-append-drop : (n : ℕ) (xs : List A) → take n xs ++ drop n xs ≡ xs
  take-append-drop zero xs = refl
  take-append-drop (suc n) [] = refl
  take-append-drop (suc n) (x ∷ xs) = ap (λ t. x ∷ t) (take-append-drop n xs)

  pub length-take : (n : ℕ) (xs : List A) → length (take n xs) ≡ min n (length xs)
  length-take zero xs = omega arith
  length-take (suc n) [] = omega arith
  length-take (suc n) (x ∷ xs) = omega (arith, length-take n xs)

  pub length-drop : (n : ℕ) (xs : List A) → length (drop n xs) ≡ length xs - n
  length-drop zero xs = omega arith
  length-drop (suc n) [] = omega arith
  length-drop (suc n) (x ∷ xs) = omega (arith, length-drop n xs)

  pub take-length : (n : ℕ) (xs : List A) → length xs ≤ n → take n xs ≡ xs
  take-length zero [] h = refl
  take-length zero (x ∷ xs) h = absurd (omega arith)
  take-length (suc n) [] h = refl
  take-length (suc n) (x ∷ xs) h = ap (λ t. x ∷ t) (take-length n xs (omega arith))

  pub take-append_self : (xs ys : List A) → take (length xs) (xs ++ ys) ≡ xs
  take-append_self [] ys = refl
  take-append_self (x ∷ xs) ys = ap (λ t. x ∷ t) (take-append_self xs ys)

  pub drop-append_self : (xs ys : List A) → drop (length xs) (xs ++ ys) ≡ ys
  drop-append_self [] ys = refl
  drop-append_self (x ∷ xs) ys = drop-append_self xs ys

  pub take-add : (n k : ℕ) (xs : List A) → take n xs ++ take k (drop n xs) ≡ take (n + k) xs
  take-add zero k xs = rw zero-add
  take-add (suc n) zero [] = rw add-zero
  take-add (suc n) (suc k) [] = rw suc-add
  take-add (suc n) k (x ∷ xs) = rw suc-add (ap (λ t. x ∷ t) (take-add n k xs))

  pub take-append : (k : ℕ) (xs ys : List A) → xs ++ take k ys ≡ take (length xs + k) (xs ++ ys)
  take-append k [] ys = rw zero-add
  take-append k (x ∷ xs) ys = rw suc-add (ap (λ t. x ∷ t) (take-append k xs ys))

  pub take-append_left : (k : ℕ) (xs ys : List A) → k ≤ length xs → take k xs ≡ take k (xs ++ ys)
  take-append_left zero xs ys h = refl
  take-append_left (suc k) [] ys h = absurd (omega arith)
  take-append_left (suc k) (x ∷ xs) ys h = ap (λ t. x ∷ t) (take-append_left k xs ys (omega arith))

  pub take-append-drop-min : (n : ℕ) (xs : List A) → take n xs ++ drop (min n (length xs)) xs ≡ xs
  take-append-drop-min zero xs = rw zero-min
  take-append-drop-min (suc n) [] = rw min-zero
  take-append-drop-min (suc n) (x ∷ xs) =
      rw suc-min-suc (ap (λ t. x ∷ t) (take-append-drop-min n xs))

  pub drop-add : (n k : ℕ) (xs : List A) → drop k (drop n xs) ≡ drop (n + k) xs
  drop-add zero k xs = rw zero-add
  drop-add (suc n) zero [] = rw add-zero
  drop-add (suc n) (suc k) [] = rw suc-add
  drop-add (suc n) k (x ∷ xs) = rw suc-add (drop-add n k xs)

  pub drop-length : (n : ℕ) (xs : List A) → length xs ≤ n → drop n xs ≡ []
  drop-length zero [] h = refl
  drop-length zero (x ∷ xs) h = absurd (omega arith)
  drop-length (suc n) [] h = refl
  drop-length (suc n) (x ∷ xs) h = drop-length n xs (omega arith)

  pub take-split :
      (m n : ℕ) (xs : List A)
      → m ≤ n
      → take n xs ≡ take m xs ++ take (n - length (take m xs)) (drop m xs)
  take-split zero n xs h = rw sub-zero
  take-split (suc m) zero xs h = absurd (omega arith)
  take-split (suc m) (suc n) [] h = rw sub-zero
  take-split (suc m) (suc n) (x ∷ xs) h =
      rw suc-sub-suc (ap (λ t. x ∷ t) (take-split m n xs (omega arith)))
