-- ===== src/Api/Utf8.antt =====
-- go/abstraction/identity/api/rec.go: UTF-8, written and checked: `appendRune` and `validUTF8`. The
-- bits that the code joins by `|` do not overlap, so they are added.
use abstraction_identity.Base.{
  ℕ, zero, suc, ◌+◌, ◌*◌, ◌/◌, ◌%◌, Bool, true, false, not, ◌&&◌, ◌||◌, [], ◌∷◌, ◌==◌, ltb, leb,
  if◌then◌else◌, Str, length, Option, none, some,
}

-- What `appendRune` appends.
unfoldable pub rune : ℕ → Str
rune cp =
    if ltb cp 0x80
    then cp ∷ []
    else if ltb cp 0x800
    then (0xC0 + cp / 64) ∷ (0x80 + cp % 64) ∷ []
    else if ltb cp 0x10000
    then (0xE0 + cp / 4096) ∷ (0x80 + cp / 64 % 64) ∷ (0x80 + cp % 64) ∷ []
    else (0xF0 + cp / 262144)
      ∷ (0x80 + cp / 4096 % 64)
      ∷ (0x80 + cp / 64 % 64)
      ∷ (0x80 + cp % 64)
      ∷ []

-- The first byte of a character: how many more belong to it, and its bits; `none` is no first byte.
unfoldable pub lead : ℕ → Option (ℕ × ℕ)
lead c =
    if ltb c 0x80
    then some (0, c)
    else if c / 32 == 0x6
    then some (1, c % 32)
    else if c / 16 == 0xE
    then some (2, c % 16)
    else if c / 8 == 0x1E
    then some (3, c % 8)
    else none

-- The table `lowest`, by how many bytes follow the first.
abbrev lowest : ℕ → ℕ
lowest n = if n == 0 then 0 else if n == 1 then 0x80 else if n == 2 then 0x800 else 0x10000

-- Whether `n` bytes may stand for the code point.
unfoldable pub is_scalar : (n cp : ℕ) → Bool
is_scalar n cp = not (ltb cp (lowest n) || (ltb 0x10FFFF cp || (leb 0xD800 cp && leb cp 0xDFFF)))

-- The bytes that follow a first byte, joined to its bits.
unfoldable pub follow : (n cp : ℕ) → Str → Option (ℕ × Str)
follow zero cp b = some (cp, b)
follow (suc n) cp [] = none
follow (suc n) cp (c ∷ b) = if c / 64 == 0x2 then follow n (cp * 64 + c % 64) b else none

-- `validUTF8`, with a round for each byte; a character has one byte at least.
unfoldable pub valid_loop : (fuel : ℕ) → Str → Bool
valid_loop fuel [] = true
valid_loop zero (c ∷ b) = false
valid_loop (suc fuel) (c ∷ b) = elim (lead c) [
  | none ↦ false
  | some (n, bits) ↦ elim (follow n bits b) [
    | none ↦ false
    | some (cp, rest) ↦ (let tail = valid_loop fuel rest in if is_scalar n cp then tail else false)
  ]
]

unfoldable pub valid_utf8 : Str → Bool
unfolding lead follow is_scalar valid_loop
valid_utf8 b = valid_loop (length b) b
