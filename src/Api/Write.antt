-- ===== src/Api/Write.antt =====
-- go/abstraction/identity/api/rec.go, the writer's half: `escByte`, `esc`, `pad`.
use abstraction_identity.Base.{
  ℕ, zero, suc, ◌+◌, ◌-◌, ◌/◌, ◌%◌, [], ◌∷◌, ◌++◌, ◌==◌, ltb, if◌then◌else◌, Str,
}

-- A digit of the constant `hex`
unfoldable pub hex_char : ℕ → ℕ
hex_char n = if ltb n 10 then b'0' + n else b'a' + (n - 10)

-- `escByte`
unfoldable pub esc_byte : ℕ → Str
esc_byte c =
    if c == b'"'
    then b'\\' ∷ b'"' ∷ []
    else if c == b'\\'
    then b'\\' ∷ b'\\' ∷ []
    else if c == 0x08
    then b'\\' ∷ b'b' ∷ []
    else if c == 0x0c
    then b'\\' ∷ b'f' ∷ []
    else if c == 0x0a
    then b'\\' ∷ b'n' ∷ []
    else if c == 0x0d
    then b'\\' ∷ b'r' ∷ []
    else if c == 0x09
    then b'\\' ∷ b't' ∷ []
    else if ltb c 0x20
    then b'\\' ∷ b'u' ∷ b'0' ∷ b'0' ∷ hex_char (c / 16) ∷ hex_char (c % 16) ∷ []
    else c ∷ []

unfoldable pub esc_bytes : Str → Str
esc_bytes [] = []
esc_bytes (c ∷ s) = esc_byte c ++ esc_bytes s

-- `esc`
unfoldable pub esc : Str → Str
esc s = b'"' ∷ (esc_bytes s ++ (b'"' ∷ []))

-- `pad`: two spaces for each step of depth.
unfoldable pub pad : ℕ → Str
pad zero = []
pad (suc depth) = b' ' ∷ b' ' ∷ pad depth
