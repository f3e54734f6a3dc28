-- ===== src/Listen/Session/Call/Reading.antt =====
-- What a handler reads through a session call: the request, and nothing behind it.
use abstraction_identity.Base.{
  ℕ, ◌+◌, ◌-◌, ◌≤◌, ◌≡◌, refl, sym, ap, ◌∙◌, Bool, true, false, List, [], ◌++◌, ltb, length, take,
  drop, length-drop, take-append-drop-min, drop-length, take-split, drop-add, Option, none, arith,
  Bool-cases, inl, inr,
}
use Prim.Native.Nat.{min}
use mathlib.Core.List.{append_assoc}
use abstraction_identity.Errors.{Err, sentinel, net_closed, eof}
use abstraction_identity.Listen.Session.Call.{
  Call, ReadResult, arrived, read, read_request, read_beyond, read_error,
}

-- What the handler has still to read: the rest of the header, then the bytes of the request that
-- are outstanding, out of what the client has sent.
abbrev pub to_read : Call → List ℕ
to_read c = drop c.header_at c.header ++ take c.remaining c.input

-- The header has its four bytes, and the position in it is within them.
abbrev pub HasHeader : Call → Type 0
HasHeader c = (length c.header ≡ 4) × (c.header_at ≤ 4)

abbrev Takes : Call → ReadResult → Type 0
Takes c r = r.call.broken ≡ false → to_read c ≡ r.bytes ++ to_read r.call

header_step :
    (c : Call) (room : ℕ)
    → HasHeader c
    → to_read c
      ≡ take room (drop c.header_at c.header)
        ++ to_read (record c { header_at = c.header_at + min room (4 - c.header_at) })
header_step c room h =
    let rest = drop c.header_at c.header in
    let n = min room (4 - c.header_at) in
    let e : length rest ≡ 4 - c.header_at = omega (arith, length-drop c.header_at c.header) in
    let parts : take room rest ++ drop (c.header_at + n) c.header ≡ rest =
      rw (← drop-add c.header_at n c.header, ← e) (take-append-drop-min room rest) in
    ap (λ t. t ++ take c.remaining c.input) (sym parts)
    ∙ append_assoc (take room rest) (drop (c.header_at + n) c.header) (take c.remaining c.input)

header_done : (c : Call) → HasHeader c → 4 ≤ c.header_at → drop c.header_at c.header ≡ []
header_done c h d = drop-length c.header_at c.header (omega arith)

request_step :
    (c : Call) (room arrives : ℕ) (e : Option Err) (late : Bool)
    → drop c.header_at c.header ≡ []
    → room ≤ c.remaining
    → Takes c (read_request c room arrives e late)
unfolding read_request
request_step c room arrives e true d h ok = cc
request_step c room arrives e false d h ok =
    rw d (take-split (min room arrives) c.remaining c.input (omega arith))

beyond_step :
    (c : Call) (room arrives : ℕ) (e : Option Err)
    → drop c.header_at c.header ≡ []
    → c.remaining ≡ 0
    → Takes c (read_beyond c room arrives e)
unfolding read_beyond
beyond_step c room arrives e d z ok = elim (Bool-cases (ltb 0 (length (arrived c room arrives)))) [
  | inl some_bytes ↦ absurd (ground arith)
  | inr no_bytes ↦ rw (no_bytes, d, z)
]

pub data ReadBranch (c : Call) (room arrives : ℕ) (e : Option Err) (late : Bool) (r : ReadResult)
    : Type 0 where
  refused : (x : Err) → r ≡ read_error c x → ReadBranch c room arrives e late r
  broke : r.call.broken ≡ true → ReadBranch c room arrives e late r
  in_header :
      r ≡ record {
        bytes = take room (drop c.header_at c.header);
        error = none;
        call = record c { header_at = c.header_at + min room (4 - c.header_at) };
      }
      → ReadBranch c room arrives e late r
  in_request :
      4 ≤ c.header_at
      → r ≡ read_request c (min room c.remaining) arrives e late
      → ReadBranch c room arrives e late r
  beyond :
      4 ≤ c.header_at
      → c.remaining ≡ 0
      → r ≡ read_beyond c (min room 1) arrives e
      → ReadBranch c room arrives e late r

pub read-branch :
    (c : Call) (room arrives : ℕ) (e : Option Err) (early late : Bool)
    → ReadBranch c room arrives e late (read c room arrives e early late)
unfolding read
read-branch c room arrives e early late = elim (Bool-cases c.closed) [
  | inl closed ↦ refused (sentinel net_closed) (ground arith)
  | inr open_ ↦ elim (Bool-cases (ltb c.header_at 4)) [
    | inl at_header ↦ elim (Bool-cases early) [
      | inl old ↦ broke (ground arith)
      | inr fresh ↦ in_header (ground arith)
    ]
    | inr past ↦ elim (Bool-cases (ltb 0 c.remaining)) [
      | inl more ↦ elim (Bool-cases early) [
        | inl old ↦ broke (ground arith)
        | inr fresh ↦ in_request (ground arith) (ground arith)
      ]
      | inr consumed ↦ elim (Bool-cases c.replied) [
        | inl done ↦ refused (sentinel eof) (ground arith)
        | inr waiting ↦ beyond (ground arith) (ground arith) (ground arith)
      ]
    ]
  ]
]

branch-Takes :
    (c : Call) (room arrives : ℕ) (e : Option Err) (late : Bool) (r : ReadResult)
    → HasHeader c
    → ReadBranch c room arrives e late r
    → Takes c r
branch-Takes c room arrives e late r h (refused x q) = rw q (λ _. refl)
branch-Takes c room arrives e late r h (broke q) = λ ok. cc
branch-Takes c room arrives e late r h (in_header q) = rw q (λ _. header_step c room h)
branch-Takes c room arrives e late r h (in_request d q) =
    rw q (request_step c (min room c.remaining) arrives e late (header_done c h d) (omega arith))
branch-Takes c room arrives e late r h (beyond d z q) =
    rw q (beyond_step c (min room 1) arrives e (header_done c h d) z)

-- A read that does not break the session takes its bytes off the front of what is still to be read
-- of the request: the handler sees the header and the request's bytes in order, none twice, none
-- left out, and none of what the client sent behind them.
pub read-to_read :
    (c : Call) (room arrives : ℕ) (e : Option Err) (early late : Bool)
    → HasHeader c
    → (read c room arrives e early late).call.broken ≡ false
    → let r = read c room arrives e early late in to_read c ≡ r.bytes ++ to_read r.call
read-to_read c room arrives e early late h ok =
    branch-Takes c room arrives e late (read c room arrives e early late) h
      (read-branch c room arrives e early late) ok
