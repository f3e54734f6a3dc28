-- ===== src/Api/Read.antt =====
-- go/abstraction/identity/api/rec.go, the reader: white space, strings and their escapes. A reading
-- takes the bytes from the reader's position on; `total` is the length of the whole buffer.
use abstraction_identity.Base.{
  ℕ, zero, suc, ◌+◌, ◌-◌, ◌*◌, Bool, true, false, ◌&&◌, ◌||◌, [], ◌∷◌, ◌++◌, ◌==◌, ltb, leb,
  if◌then◌else◌, Str, codes, length, Option, none, some,
}
use abstraction_identity.Api.Utf8.{rune, valid_utf8}

-- `Refusal`
pub record Refusal : Type 0 where
  pub word : Str
  pub offset : ℕ

-- What a method of the reader gives: a value and the bytes that stay to be read, or a refusal.
pub data Read (A : Type 0) : Type 0 where
  got : A → (rest : Str) → Read A
  refused : Refusal → Read A

abbrev pub Reading : Type 0 → Type 0
Reading A = Str → Read A

infixl 5 ◌>>=◌ ◌>>◌
abbrev pub ◌>>=◌ : {A B : Type 0} → Reading A → (A → Reading B) → Reading B
◌>>=◌ m f s = elim (m s) [ got a rest ↦ f a rest | refused e ↦ refused e ]

abbrev pub ◌>>◌ : {B : Type 0} → Reading (Unit {0}) → Reading B → Reading B
◌>>◌ m k = m >>= (λ _. k)

abbrev pub give : {A : Type 0} → A → Reading A
give a s = got a s

-- `at`: 0 at the end.
abbrev pub at_byte : Str → ℕ
at_byte [] = 0
at_byte (c ∷ s) = c

abbrev is_space : ℕ → Bool
is_space c = c == b' ' || (c == 0x09 || (c == 0x0a || c == 0x0d))

-- `ws`
unfoldable pub skip_ws : Str → Str
skip_ws [] = []
skip_ws (c ∷ s) = if is_space c then skip_ws s else c ∷ s

abbrev pub ws : Reading (Unit {0})
ws s = got tt (skip_ws s)

-- A digit of `hex4`
unfoldable pub hex_digit : ℕ → Option ℕ
hex_digit c =
    if leb b'0' c && leb c b'9'
    then some (c - b'0')
    else if leb b'a' c && leb c b'f'
    then some (c - b'a' + 10)
    else if leb b'A' c && leb c b'F'
    then some (c - b'A' + 10)
    else none

-- A further digit of the loop of `hex4`
unfoldable pub more_hex : Option ℕ → ℕ → Option ℕ
more_hex none c = none
more_hex (some u) c = elim (hex_digit c) [ none ↦ none | some d ↦ some (u * 16 + d) ]

module _ (total : ℕ) where
  -- `refuse`
  abbrev pub refuse : {A : Type 0} → Str → Reading A
  refuse word s = refused (record { word = word; offset = total - length s })

  -- A single byte that has to come next.
  unfoldable pub expect : ℕ → (word : Str) → Reading (Unit {0})
  expect c word [] = refuse word []
  expect c word (d ∷ s) = if d == c then got tt s else refuse word (d ∷ s)

  -- `hex4`: nothing is taken where it refuses.
  unfoldable pub hex4 : Reading ℕ
  hex4 (a ∷ b ∷ c ∷ d ∷ s) = elim (more_hex (more_hex (more_hex (more_hex (some 0) a) b) c) d) [
    | none ↦ refuse (codes "bad_string") (a ∷ b ∷ c ∷ d ∷ s)
    | some u ↦ got u s
  ]
  hex4 s = refuse (codes "bad_string") s

  -- The second half of a surrogate pair, from its `\u` on.
  unfoldable pub low_half : ℕ → Reading Str
  low_half u = hex4 >>= λ lo.
      if ltb lo 0xDC00 || ltb 0xDFFF lo
      then refuse (codes "bad_string")
      else give (rune (0x10000 + (u - 0xD800) * 1024 + (lo - 0xDC00)))

  unfoldable pub pair_half : ℕ → Reading Str
  pair_half u (a ∷ b ∷ s) =
      if a == b'\\' && b == b'u' then low_half u s else refuse (codes "bad_string") (a ∷ b ∷ s)
  pair_half u s = refuse (codes "bad_string") s

  -- `escape` behind `\u`
  unfoldable pub escape_u : Reading Str
  escape_u = hex4 >>= λ u.
      if leb 0xDC00 u && leb u 0xDFFF
      then refuse (codes "bad_string")
      else if leb 0xD800 u && leb u 0xDBFF
      then pair_half u
      else give (rune u)

  -- `escape`, behind the backslash: the bytes that it appends.
  unfoldable pub escape : Reading Str
  escape [] = refuse (codes "malformed") []
  escape (c ∷ s) =
      if c == b'"' || (c == b'\\' || c == b'/')
      then got (c ∷ []) s
      else if c == b'b'
      then got (0x08 ∷ []) s
      else if c == b'f'
      then got (0x0c ∷ []) s
      else if c == b'n'
      then got (0x0a ∷ []) s
      else if c == b'r'
      then got (0x0d ∷ []) s
      else if c == b't'
      then got (0x09 ∷ []) s
      else if c == b'u'
      then escape_u s
      else refuse (codes "bad_string") s

  -- The end of a string
  abbrev string_end : (out : Str) → Reading Str
  string_end out = if valid_utf8 out then give out else refuse (codes "bad_string")

  -- The loop of `str`: each round takes a byte at least.
  unfoldable pub str_loop : (fuel : ℕ) → (out : Str) → Reading Str
  str_loop zero out s = refuse (codes "malformed") s
  str_loop (suc fuel) out [] = refuse (codes "malformed") []
  str_loop (suc fuel) out (c ∷ s) = elim (c == b'"') [
    | true ↦ string_end out s
    | false ↦ elim (ltb c 0x20) [
      | true ↦ refuse (codes "bad_string") (c ∷ s)
      | false ↦ elim (c == b'\\') [
        | true ↦ (escape >>= λ u. str_loop fuel (out ++ u)) s
        | false ↦ str_loop fuel (out ++ (c ∷ [])) s
      ]
    ]
  ]

  -- `str`
  unfoldable pub str : Reading Str
  str s = (expect b'"' (codes "wrong_type") >>= λ _. str_loop (suc (length s)) []) s
