-- ===== src/Listen/Wire.antt =====
-- The 32-bit header of listen/session.go and framed.go: bit 31 asks for or continues a session,
-- bit 30 marks a one-way frame, the low 30 bits are a length. Masks are written by `/` and `%`.
use abstraction_identity.Base.{
  ℕ, ◌+◌, ◌*◌, ◌/◌, ◌%◌, ◌^◌, ◌<◌, ◌≡◌, Bool, List, [], ◌∷◌, ◌==◌, if◌then◌else◌, arith,
}

-- `sessionFlag`, `oneWayFlag`, `lengthMask`
abbrev pub session_flag : ℕ
session_flag = 2147483648

abbrev pub one_way_flag : ℕ
one_way_flag = 1073741824

abbrev pub length_mask : ℕ
length_mask = 1073741823

-- `sessionAccept`, `sessionDecline`, `sessionUnsupported`, `sessionClosing`
abbrev pub session_accept : ℕ
session_accept = 2147483648

abbrev pub session_decline : ℕ
session_decline = 0

abbrev pub session_unsupported : ℕ
session_unsupported = 1073741824

abbrev pub session_closing : ℕ
session_closing = 0xFFFF_FFFF

-- `proofRefusalHeader`
abbrev pub proof_refusal_header : ℕ
proof_refusal_header = 0xFFFF_FFFE

-- `h&sessionFlag != 0` and `h&oneWayFlag != 0`
abbrev pub has_session : ℕ → Bool
has_session h = h / 2147483648 % 2 == 1

abbrev pub has_one_way : ℕ → Bool
has_one_way h = h / 1073741824 % 2 == 1

-- `h & lengthMask`
abbrev pub masked : ℕ → ℕ
masked h = h % 1073741824

-- `h | sessionFlag` and `h | oneWayFlag`
abbrev pub with_session : ℕ → ℕ
with_session h = if has_session h then h else h + 2147483648

abbrev pub with_one_way : ℕ → ℕ
with_one_way h = if has_one_way h then h else h + 1073741824

-- `binary.BigEndian.PutUint32` and `Uint32`
abbrev pub put_uint32 : ℕ → List ℕ
put_uint32 v = (v / 16777216 % 256) ∷ (v / 65536 % 256) ∷ (v / 256 % 256) ∷ (v % 256) ∷ []

abbrev pub uint32 : ℕ → ℕ → ℕ → ℕ → ℕ
uint32 a b c d = ((a * 256 + b) * 256 + c) * 256 + d

pub uint32_put :
    (v : ℕ)
    → v < 2 ^ 32
    → uint32 (v / 16777216 % 256) (v / 65536 % 256) (v / 256 % 256) (v % 256) ≡ v
uint32_put v h = omega arith

abbrev pub IsByte : ℕ → Type 0
IsByte b = b < 256
