-- ===== src/Listen/Client.antt =====
-- listen/pool.go: one exchange of a client through the pool, with its retry behind a closing
-- marker. What the pool, the dialer, the connection and the call's context answer is an `Attempt`.
pub mod Once
pub mod Reply
pub mod Fallback
use abstraction_identity.Base.{
  ℕ, zero, suc, ◌+◌, ◌-◌, ◌≤◌, ◌<◌, Bool, true, false, not, ◌&&◌, ◌||◌, List, [], ◌∷◌, ◌++◌, ltb,
  leb, ◌==◌, if◌then◌else◌, length, drop, Option, none, some, ◌%◌, ◌^◌,
}
use abstraction_identity.Errors.{
  Err, sentinel, refusal, as_proof_refusal, is, session_protocol, no_session, unexpected_response,
  short_write, closed_pipe, net_closed, io_timeout, epipe, econnreset, no_progress,
}
use abstraction_identity.Listen.Wire.{
  session_accept, session_decline, session_unsupported, session_closing, proof_refusal_header,
  has_session, has_one_way, with_session, with_one_way, masked, put_uint32, uint32,
}
use abstraction_identity.Listen.Stream.{
  Input, Full, full, short, read_full, Taken, negative, taken, Writer,
}
use abstraction_identity.Listen.Refusal.{read_proof_refusal}
use abstraction_identity.Listen.Pool.{Pooled, put}
use abstraction_identity.Peer.Types.{Time}
use abstraction_identity.Listen.Frame.{
  Written, write_headed_count, Frame, frame, no_frame, read_frame, read_frame_body, wait_frame_eof,
}

-- `sessionAttempts`
abbrev pub session_attempts : ℕ
session_attempts = 3

-- What `readUint32` gives: the word and what stays to be read, or how many bytes came and the
-- error.
pub data Word : Type 0 where
  word : ℕ → Input → Word
  no_word : ℕ → Err → Word

abbrev word_of : Full → Word
word_of (short n e) = no_word n e
word_of (full (a ∷ b ∷ c ∷ d ∷ _) rest) = word (uint32 a b c d) rest
word_of (full _ rest) = no_word 0 (sentinel no_progress)

-- `readUint32`
unfoldable pub read_uint32 : Input → Word
read_uint32 i = word_of (read_full 4 i)

-- `writeSignalsClosedPeer`; `platform` is the platform's own test.
unfoldable pub write_signals_closed_peer : (platform : Err → Bool) → Err → Bool
write_signals_closed_peer platform e =
    is e epipe || (is e econnreset || (is e closed_pipe || (is e net_closed || platform e)))

-- The end of `refusalAfterWriteError`: a complete refusal behind its header, or the write's error.
unfoldable pub refusal_or : Err → Word → Err
refusal_or write_error (no_word n e) = write_error
refusal_or write_error (word header rest) =
    if header == proof_refusal_header
    then elim (as_proof_refusal (read_proof_refusal rest)) [
      | some r ↦ refusal r
      | none ↦ write_error
    ]
    else write_error

abbrev is_answer : ℕ → Bool
is_answer header =
    header == session_accept || (header == session_decline || header == session_unsupported)

-- The word behind an answer to an opening header, where the call was opening a session.
unfoldable pub skip_answer : (opening : Bool) → Word → Word
skip_answer opening (no_word n e) = no_word n e
skip_answer opening (word header rest) =
    if opening && is_answer header then read_uint32 rest else word header rest

-- `refusalAfterWriteError`; `ended` is whether the call's context has ended.
unfoldable pub refusal_after_write_error :
    (platform : Err → Bool) → (ended : Bool) → Input → Err → (opening : Bool) → Err
refusal_after_write_error platform ended i e opening =
    if ended || not (write_signals_closed_peer platform e)
    then e
    else refusal_or e (skip_answer opening (read_uint32 i))

module _ {S : Type 0} (w : Writer S) where
  -- A round of `writeAll`, over what one Write answered.
  unfoldable pub write_all_round : Taken → Option Err → S → (ℕ → Option Err × S) → Option Err × S
  write_all_round t (some e) s again = (some e, s)
  write_all_round negative none s again = (some (sentinel short_write), s)
  write_all_round (taken n) none s again =
      if n == 0 then (some (sentinel short_write), s) else again n

  -- `writeAll`: a round without error takes a byte at least, so one round more than there are
  -- bytes is fuel enough. A Write that says it took more than it was given panics in Go; here the
  -- rest is empty.
  unfoldable pub write_all_loop : ℕ → List ℕ → S → Option Err × S
  write_all_loop zero b s = (some (sentinel short_write), s)
  write_all_loop (suc fuel) [] s = (none, s)
  write_all_loop (suc fuel) (x ∷ xs) s =
      let (t, e, s') = w.write s (x ∷ xs) in
      write_all_round t e s' (λ n. write_all_loop fuel (drop n (x ∷ xs)) s')

  unfoldable pub write_all : List ℕ → S → Option Err × S
  write_all b s = write_all_loop (suc (length b)) b s

-- What the world answers in one round of `sessionCall`'s loop.
pub record Attempt (S : Type 0) : Type 0 where
  -- the number of the connection; the connections of the key that are pooled when the call hands
  -- it back, and the time of that
  pub conn : ℕ
  pub idle : List Pooled
  pub finished : Time
  -- `frames.take` gave a connection
  pub pooled : Bool
  -- `dialSession` and `conn.use`
  pub dial : Option Err
  pub use_error : Option Err
  -- the connection: its writer's state, and what can be read from it
  pub state : S
  pub input : Input
  -- the context has ended, asked at a failure and in `finish`; `stop` detached the call
  pub ended : Bool
  pub ended_at_finish : Bool
  pub stop : Bool

-- What became of the connection. One that is handed to `frames.put` leaves what that leaves in the
-- pool, and what it closes, which may be the connection itself.
pub data Fate : Type 0 where
  unopened closed : Fate
  put_back : List Pooled × List Pooled → Fate

-- How a round ends: the loop goes on, or the call returns a reply or an error. `single` is whether
-- the endpoint was marked as serving one exchange per connection.
pub data Turn (S : Type 0) : Type 0 where
  again : S → Turn S
  ends : Option Err → List ℕ → (single : Bool) → Fate → S → Turn S

-- A pooled connection is not dialled.
abbrev pub dial_failure : (pooled : Bool) → Option Err → Option Err
dial_failure true e = none
dial_failure false e = e

-- What the call sends and accepts.
pub record Request : Type 0 where
  pub body : List ℕ
  pub limit : ℕ
  pub one_way : Bool

-- `flags`
abbrev pub flags_of : Request → ℕ
flags_of r =
    let h = with_session (length r.body % 2 ^ 32) in if r.one_way then with_one_way h else h

module _ {S : Type 0} (w : Writer S) (platform : Err → Bool) (r : Request) (a : Attempt S) where
  -- `finish`, where `keep` was set or not.
  unfoldable pub finish : (keep : Bool) → Fate
  finish keep =
      if keep && (a.stop && not a.ended_at_finish)
      then put_back (put a.conn a.finished a.idle)
      else closed

  abbrev pub fails : Err → S → Turn S
  fails e s = ends (some e) [] false (finish false) s

  -- The answer's body, or the end of a one-way call.
  unfoldable pub take_body : (header : ℕ) → Frame → S → Turn S
  take_body header (no_frame e) s = ends (some e) [] false (finish false) s
  take_body header (frame body rest) s = ends none body false (finish (has_session header)) s

  -- From the read of the response header on.
  unfoldable pub answered : Word → S → Turn S
  answered (no_word n e) s = fails e s
  answered (word header rest) s =
      if header == session_closing
      then again s
      else if header == proof_refusal_header
      then fails (read_proof_refusal rest) s
      else if has_one_way header
      then fails (sentinel session_protocol) s
      else if r.one_way
      then (if not (masked header == 0)
          then fails (sentinel unexpected_response) s
          else ends none [] false (finish (has_session header)) s)
      else take_body header (read_frame_body rest (masked header) r.limit) s

  -- `singleOnSession`
  unfoldable pub single_on_session : Input → S → Option Err × List ℕ × S
  single_on_session rest s =
      let (e, s') = write_all w r.body s in
      elim e [
        | some x ↦ (some (refusal_after_write_error platform a.ended rest x false), [], s')
        | none ↦
            if r.one_way then (wait_frame_eof rest, [], s') else elim (read_frame rest r.limit) [
              | frame body _ ↦ (none, body, s')
              | no_frame x ↦ (some x, [], s')
            ]
      ]

  -- An accepted session: the body, then the answer.
  unfoldable pub accepted : Input → S → Turn S
  accepted rest s =
      let (e, s') = write_all w r.body s in
      elim e [
        | some x ↦ fails (refusal_after_write_error platform a.ended rest x false) s'
        | none ↦ answered (read_uint32 rest) s'
      ]

  unfoldable pub declined : (single : Bool) → Input → S → Turn S
  declined single rest s =
      let (e, reply, s') = single_on_session rest s in ends e reply single (finish false) s'

  -- The switch over the server's answer to an opening header.
  unfoldable pub opened : Word → S → Turn S
  opened (no_word n e) s =
      if n == 0 && (not a.ended && not (is e io_timeout))
      then fails (sentinel no_session) s
      else fails e s
  opened (word ack rest) s =
      if ack == proof_refusal_header
      then fails (read_proof_refusal rest) s
      else if ack == session_closing
      then again s
      else if ack == session_decline || ack == session_unsupported
      then declined (ack == session_unsupported) rest s
      else if not (ack == session_accept)
      then fails (sentinel session_protocol) s
      else accepted rest s

  -- A fresh connection: the header alone, then the server's answer.
  unfoldable pub fresh_turn : Turn S
  fresh_turn =
      let (t, e, s) = w.write a.state (put_uint32 (flags_of r)) in
      elim e [
        | some x ↦ fails (refusal_after_write_error platform a.ended a.input x true) s
        | none ↦ opened (read_uint32 a.input) s
      ]

  -- A pooled connection: header and body together.
  unfoldable pub pooled_turn : Turn S
  pooled_turn =
      let x = write_headed_count w (flags_of r) r.body a.state in
      elim x.error [
        | some e ↦ fails (refusal_after_write_error platform a.ended a.input e false) x.state
        | none ↦ answered (read_uint32 a.input) x.state
      ]

  -- One round of the loop.
  unfoldable pub turn : Turn S
  turn = elim (dial_failure a.pooled a.dial) [
    | some e ↦ ends (some e) [] false unopened a.state
    | none ↦ elim a.use_error [
      | some e ↦ ends (some e) [] false closed a.state
      | none ↦ if a.pooled then pooled_turn else fresh_turn
    ]
  ]

-- What the call returns, and what it did on the way: how many rounds it took, whether it marked
-- the endpoint, and what became of the last connection (every earlier one was closed).
pub record Outcome : Type 0 where
  pub error : Option Err
  pub reply : List ℕ
  pub rounds : ℕ
  pub single : Bool
  pub fate : Fate

-- The end of round `i`, where `rest` is what the loop gives that goes on.
unfoldable pub after_turn : {S : Type 0} → ℕ → Outcome → Turn S → Outcome
after_turn i rest (again s) = rest
after_turn i rest (ends e reply single fate s) = record {
  error = e;
  reply = reply;
  rounds = suc i;
  single = single;
  fate = fate;
}

module _ {S : Type 0} (w : Writer S) (platform : Err → Bool) (r : Request)
    (env : ℕ → Attempt S) where
  -- The loop: `n` rounds are left, and `i` are behind it.
  unfoldable pub session_loop : (n i : ℕ) → Outcome
  session_loop zero i = record {
    error = some (sentinel session_protocol);
    reply = [];
    rounds = i;
    single = false;
    fate = closed;
  }
  session_loop (suc n) i = after_turn i (session_loop n (suc i)) (turn w platform r (env i))

  -- `sessionCall`
  unfoldable pub session_call : Outcome
  session_call = session_loop session_attempts 0
