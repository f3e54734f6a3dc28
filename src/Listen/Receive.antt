-- ===== src/Listen/Receive.antt =====
-- listen/framed.go: ReceiveFramed on a stream connection: one request, its caller's identity
-- checked before the body is read. What the connection, the binding and the context answer is an
-- `Arrival`.
pub mod Policy
pub mod Refused
use abstraction_identity.Base.{
  ℕ, ◌<◌, ◌≤◌, Bool, true, false, not, ◌&&◌, List, [], ◌∷◌, ◌++◌, ltb, ◌==◌, if◌then◌else◌, length,
  Option, none, some,
}
use abstraction_identity.Errors.{
  Err, sentinel, is, not_proven, frame_too_large, frame_deadline, canceled, deadline_exceeded,
  io_timeout,
}
use abstraction_identity.Peer.{Need}
use abstraction_identity.Binding.{Binding, BindingState, check_binding}
use abstraction_identity.Listen.Wire.{
  session_closing, session_unsupported, has_session, masked, put_uint32,
}
use abstraction_identity.Listen.Stream.{Input}
use abstraction_identity.Listen.Refusal.{proof_refusal_bytes}
use abstraction_identity.Listen.Frame.{Frame, frame, no_frame, read_frame_body}
use abstraction_identity.Listen.Client.{Word, word, no_word, read_uint32}

-- `frameError`: the context's error, or what the call met; `late` is whether the context's
-- deadline has passed.
unfoldable pub frame_error : (context : Option Err) → (late : Bool) → Err → Err
frame_error (some x) late e = x
frame_error none late e = if is e io_timeout && late then sentinel deadline_exceeded else e

-- What `Bind` gives: an error, or a binding with the platform's answer to its first recheck.
pub data Bound : Type 0 where
  bind_failed : Err → Bound
  bound : Binding → BindingState → (answer : Option Err) → Bound

-- `c.Bind()` and `b.Check(need)`
unfoldable pub bind_check : Bound → Need → Option Err
bind_check (bind_failed e) n = some e
bind_check (bound b s answer) n = (check_binding b s n answer).1

pub record Arrival : Type 0 where
  -- the context's error at the start, at the end, and where the call fails
  pub context_before : Option Err
  pub context_after : Option Err
  pub context_failed : Option Err
  pub late : Bool
  -- whether the connection can set a deadline, and what that gives
  pub has_deadline : Bool
  pub deadline : Option Err
  pub input : Input
  -- the answer to a session request could not be written
  pub answer : Option Err
  -- the call was closed before its binding
  pub closed : Bool
  pub bind : Bound
  -- `requestValid` of a session's call; none on any other connection
  pub valid : Option Err

-- The call, or its error with what was sent to the caller.
pub data Received : Type 0 where
  accepted : (frame sent : List ℕ) → Received
  rejected : Err → (sent : List ℕ) → Received

abbrev pub is_none : Option Err → Bool
is_none none = true
is_none (some e) = false

module _ (a : Arrival) (need : Need) (limit : ℕ) where
  abbrev pub may_refuse : (can_refuse : Bool) → Err → Bool
  may_refuse can_refuse e = can_refuse && (is_none a.context_failed && is e not_proven)

  -- `fail`: where it may, it sends the refusal of the error that the caller of this function gets.
  unfoldable pub fail : (can_refuse : Bool) → (sent : List ℕ) → Err → Received
  fail can_refuse sent e =
      let result = frame_error a.context_failed a.late e in
      rejected result
        (if may_refuse can_refuse result then sent ++ proof_refusal_bytes result else sent)

  -- The body is there: the session's limit and the context are asked again.
  unfoldable pub admit_body : (sent : List ℕ) → Frame → Received
  admit_body sent (no_frame e) = fail true sent e
  admit_body sent (frame body rest) = elim a.valid [
    | some e ↦ fail true sent e
    | none ↦ elim a.context_after [ some e ↦ fail true sent e | none ↦ accepted body sent ]
  ]

  -- From the length on: its limit, then the caller's identity, then the body.
  unfoldable pub admit_length : (sent : List ℕ) → ℕ → Input → Received
  admit_length sent n rest =
      if ltb limit n
      then fail true sent (sentinel frame_too_large)
      else if a.closed
      then fail true sent (sentinel canceled)
      else elim (bind_check a.bind need) [
        | some e ↦ fail true sent e
        | none ↦ admit_body sent (read_frame_body rest n limit)
      ]

  -- From the header on: a session request is answered as unsupported.
  unfoldable pub admit_header : Word → Received
  admit_header (no_word k e) = fail false [] e
  admit_header (word n rest) =
      if has_session n && not (n == session_closing)
      then elim a.answer [
        | some e ↦ fail true [] e
        | none ↦ admit_length (put_uint32 session_unsupported) (masked n) rest
      ]
      else admit_length [] n rest

  -- `ReceiveFramed`, behind the call's construction
  unfoldable pub receive_framed : Received
  receive_framed = elim a.context_before [
    | some e ↦ fail false [] e
    | none ↦
        if not a.has_deadline then fail false [] (sentinel frame_deadline) else elim a.deadline [
          | some e ↦ fail false [] e
          | none ↦ admit_header (read_uint32 a.input)
        ]
  ]
