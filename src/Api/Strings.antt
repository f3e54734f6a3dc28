-- ===== src/Api/Strings.antt =====
-- A string that was written is read back: `esc` and `str`.
use abstraction_identity.Base.{
  ℕ, zero, suc, ◌≤◌, ◌<◌, ◌≡◌, refl, sym, ap, ◌/◌, ◌%◌, true, [], ◌∷◌, ◌++◌, ◌==◌, ltb, Str, length,
  some, arith, length-append, if_rule, ==_iff, ltb→lt, ◌∙◌,
}
use mathlib.Core.List.{append_assoc, append-nil}
use abstraction_identity.Api.Write.{hex_char, esc_byte, esc_bytes, esc}
use abstraction_identity.Api.Utf8.{rune, valid_utf8}
use abstraction_identity.Api.Read.{
  got, ◌>>=◌, expect, hex_digit, more_hex, hex4, escape_u, escape, str_loop, str,
}

hex_digit-char : (n : ℕ) → n < 16 → hex_digit (hex_char n) ≡ some n
unfolding hex_digit hex_char
hex_digit-char n h = ground arith

length-esc_byte : (c : ℕ) → 1 ≤ length (esc_byte c)
unfolding esc_byte
length-esc_byte c = ground arith

module _ (total : ℕ) where
  -- The escape of a control character by its code
  hex4-control :
      (c : ℕ) (s : Str)
      → c < 32
      → hex4 total (b'0' ∷ b'0' ∷ hex_char (c / 16) ∷ hex_char (c % 16) ∷ s) ≡ got c s
  unfolding hex4 more_hex hex_digit hex_char
  hex4-control c s h =
      ground (arith, hex_digit-char (c / 16) (omega arith), hex_digit-char (c % 16) (omega arith))

  escape_u-control :
      (c : ℕ) (s : Str)
      → c < 32
      → escape_u total (b'0' ∷ b'0' ∷ hex_char (c / 16) ∷ hex_char (c % 16) ∷ s) ≡ got (c ∷ []) s
  unfolding escape_u rune
  escape_u-control c s h = rw (hex4-control c s h, escape_u, ◌>>=◌) (ground arith)

  -- A byte that has an escape of its own.
  step_special :
      (fuel c k e : ℕ) (out s : Str)
      → str_loop total (suc fuel) out (b'\\' ∷ e ∷ s) ≡ str_loop total fuel (out ++ (k ∷ [])) s
      → (c == k) ≡ true
      → str_loop total (suc fuel) out (b'\\' ∷ e ∷ s) ≡ str_loop total fuel (out ++ (c ∷ [])) s
  step_special fuel c k e out s q h = rw ((==_iff c k).0 h) q

  -- One byte, written and read.
  step_byte :
      (fuel c : ℕ) (out s : Str)
      → str_loop total (suc fuel) out (esc_byte c ++ s) ≡ str_loop total fuel (out ++ (c ∷ [])) s
  unfolding str_loop esc_byte escape
  step_byte fuel c out s =
      let P = λ (t : Str).
        str_loop total (suc fuel) out (t ++ s) ≡ str_loop total fuel (out ++ (c ∷ [])) s in
      if_rule P (c == b'"') _ _ (step_special fuel c b'"' b'"' out s refl) λ h1.
        if_rule P (c == b'\\') _ _ (step_special fuel c b'\\' b'\\' out s refl) λ h2.
          if_rule P (c == 8) _ _ (step_special fuel c 8 b'b' out s refl) λ h3.
            if_rule P (c == 12) _ _ (step_special fuel c 12 b'f' out s refl) λ h4.
              if_rule P (c == 10) _ _ (step_special fuel c 10 b'n' out s refl) λ h5.
                if_rule P (c == 13) _ _ (step_special fuel c 13 b'r' out s refl) λ h6.
                  if_rule P (c == 9) _ _ (step_special fuel c 9 b't' out s refl) λ h7.
                    if_rule P (ltb c 32) _ _
                      (λ h8.
                        rw (escape_u-control c s (ltb→lt c 32 h8), str_loop, escape, ◌>>=◌) refl)
                      (λ h8. rw (h1, h8, h2, str_loop) refl)

  length-esc_bytes : (s : Str) → length s ≤ length (esc_bytes s)
  unfolding esc_bytes
  length-esc_bytes [] = omega arith
  length-esc_bytes (c ∷ s) =
      omega (arith, length-append (esc_byte c) (esc_bytes s), length-esc_byte c, length-esc_bytes s)

  str_loop-esc_bytes :
      (fuel : ℕ) (s out tail : Str)
      → length s < fuel
      → valid_utf8 (out ++ s) ≡ true
      → str_loop total fuel out (esc_bytes s ++ (b'"' ∷ tail)) ≡ got (out ++ s) tail
  unfolding esc_bytes
  str_loop-esc_bytes zero s out tail h v = absurd (omega arith)
  str_loop-esc_bytes (suc fuel) [] out tail h v =
      unfold str_loop in let e = append-nil out in rw e (rw (sym (ap valid_utf8 e) ∙ v) refl)
  str_loop-esc_bytes (suc fuel) (c ∷ s) out tail h v =
      rw (append_assoc (esc_byte c) (esc_bytes s) (b'"' ∷ tail)) (
        step_byte fuel c out _
        ∙ (str_loop-esc_bytes fuel s (out ++ (c ∷ [])) tail (omega arith)
              (ap valid_utf8 (append_assoc out (c ∷ []) s) ∙ v)
            ∙ ap (λ (t : Str). got t tail) (append_assoc out (c ∷ []) s)))

  -- A text in UTF-8 that was written as a string is read back, up to the closing quote.
  pub str-esc : (s tail : Str) → valid_utf8 s ≡ true → str total (esc s ++ tail) ≡ got s tail
  unfolding str esc expect
  str-esc s tail v = rw (append_assoc (esc_bytes s) (b'"' ∷ []) tail) (
      str_loop-esc_bytes _ s [] tail
        (omega (arith, length-append (esc_bytes s) (b'"' ∷ tail), length-esc_bytes s)) v)
