-- ===== src/Listen/Frame.antt =====
-- listen/framed.go: bounded frames on a byte stream.
pub mod Write
pub mod RoundTrip
use abstraction_identity.Base.{
  ℕ, zero, suc, ◌+◌, ◌-◌, ◌≤◌, ◌<◌, Bool, true, false, ◌||◌, List, [], ◌∷◌, ◌++◌, ltb, leb, ◌==◌,
  if◌then◌else◌, length, take, drop, Option, none, some,
}
use abstraction_identity.Errors.{
  Err, sentinel, frame_too_large, unexpected_response, short_write, no_progress, eof, is,
}
use abstraction_identity.Listen.Wire.{length_mask, proof_refusal_header, put_uint32, uint32}
use abstraction_identity.Listen.Stream.{
  Input, Full, full, short, read_full, One, one, nothing, read_one, Taken, negative, taken, Writer,
}
use abstraction_identity.Listen.Refusal.{read_proof_refusal}

-- `DefaultMaxFrame`
abbrev pub default_max_frame : ℕ
default_max_frame = 1048576

-- `frameLimit`
unfoldable pub frame_limit : ℕ → ℕ
frame_limit n = if n == 0 then default_max_frame else if ltb length_mask n then length_mask else n

-- The result of writing: the bytes accepted, the error, and the writer after it.
pub record Written (S : Type 0) : Type 0 where
  pub count : ℕ
  pub error : Option Err
  pub state : S

module _ {S : Type 0} (w : Writer S) where
  -- The body of the inner loop of `writeHeadedCount`, over what one Write answered: `again n` goes
  -- on behind the `n` bytes that it took.
  unfoldable pub write_round : List ℕ → ℕ → Taken → Option Err → S → (ℕ → Written S) → Written S
  write_round part written negative e s again = record {
    count = written;
    error = some (sentinel short_write);
    state = s;
  }
  write_round part written (taken n) e s again =
      if ltb (length part) n
      then record { count = written; error = some (sentinel short_write); state = s }
      else elim e [
        | some x ↦ record { count = written + n; error = some x; state = s }
        | none ↦
            if n == 0
            then record { count = written + n; error = some (sentinel short_write); state = s }
            else again n
      ]

  -- The inner loop: `part` is what is left of this part. A round takes a byte at least or ends the
  -- loop, so one round more than the part has bytes is fuel enough.
  unfoldable pub write_part : ℕ → List ℕ → ℕ → S → Written S
  write_part zero part written s = record {
    count = written;
    error = some (sentinel short_write);
    state = s;
  }
  write_part (suc fuel) [] written s = record { count = written; error = none; state = s }
  write_part (suc fuel) (b ∷ bs) written s =
      let (t, e, s') = w.write s (b ∷ bs) in
      write_round (b ∷ bs) written t e s' (λ n. write_part fuel (drop n (b ∷ bs)) (written + n) s')

  unfoldable pub write_parts : List (List ℕ) → ℕ → S → Written S
  write_parts [] written s = record { count = written; error = none; state = s }
  write_parts (part ∷ parts) written s =
      let r = write_part (suc (length part)) part written s in
      elim r.error [ some e ↦ r | none ↦ write_parts parts r.count r.state ]

  -- The parts: one joined write for a small payload, two otherwise.
  unfoldable pub headed_parts : ℕ → List ℕ → List (List ℕ)
  headed_parts header frame =
      if leb (length frame) 65536
      then (put_uint32 header ++ frame) ∷ []
      else put_uint32 header ∷ frame ∷ []

  -- `writeHeadedCount`
  unfoldable pub write_headed_count : ℕ → List ℕ → S → Written S
  write_headed_count header frame s = write_parts (headed_parts header frame) 0 s

  -- `writeFrame`, with `writeHeaded`
  unfoldable pub write_frame : List ℕ → ℕ → S → Written S
  write_frame frame limit s =
      if ltb limit (length frame)
      then record { count = 0; error = some (sentinel frame_too_large); state = s }
      else write_headed_count (length frame) frame s

pub data Frame : Type 0 where
  frame : List ℕ → Input → Frame
  no_frame : Err → Frame

-- The largest Go int of a 64-bit build.
abbrev pub max_int : ℕ
max_int = 0x7FFF_FFFF_FFFF_FFFF

-- `readFrameBody`
unfoldable pub read_frame_body : Input → ℕ → ℕ → Frame
read_frame_body i n limit =
    if ltb limit n || ltb max_int n
    then no_frame (sentinel frame_too_large)
    else elim (read_full n i) [ full body rest ↦ frame body rest | short k e ↦ no_frame e ]

-- `readFrame` behind the four header bytes.
unfoldable pub read_after_header : List ℕ → Input → ℕ → Frame
read_after_header (a ∷ b ∷ c ∷ d ∷ _) rest limit =
    if uint32 a b c d == proof_refusal_header
    then no_frame (read_proof_refusal rest)
    else read_frame_body rest (uint32 a b c d) limit
read_after_header _ rest limit = no_frame (sentinel no_progress)

-- `readFrame`
unfoldable pub read_frame : Input → ℕ → Frame
read_frame i limit = elim (read_full 4 i) [
  | short k e ↦ no_frame e
  | full header rest ↦ read_after_header header rest limit
]

abbrev is_eof : Err → Bool
is_eof e = is e eof

-- The bytes behind a first byte 0xFF: the rest of a refusal, or an unexpected response.
abbrev eof_after_ff : Input → Option Err
eof_after_ff rest = elim (read_full 3 rest) [
  | short k e ↦ some e
  | full (b ∷ c ∷ d ∷ _) rest' ↦
      if uint32 255 b c d == proof_refusal_header
      then some (read_proof_refusal rest')
      else some (sentinel unexpected_response)
  | full _ rest' ↦ some (sentinel unexpected_response)
]

-- `waitFrameEOF`, over what its first `Read` gives.
unfoldable pub wait_frame_eof_after : One → Option Err
wait_frame_eof_after (one b rest) =
    if b == 255 then eof_after_ff rest else some (sentinel unexpected_response)
wait_frame_eof_after (nothing none) = some (sentinel no_progress)
wait_frame_eof_after (nothing (some e)) = if is_eof e then none else some e

unfoldable pub wait_frame_eof : Input → Option Err
unfolding read_one wait_frame_eof_after
wait_frame_eof i = wait_frame_eof_after (read_one i)
