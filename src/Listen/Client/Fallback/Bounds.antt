-- ===== src/Listen/Client/Fallback/Bounds.antt =====
-- No reply that a client hands out is longer than its limit.
use abstraction_identity.Base.{
  ℕ, zero, suc, ◌≤◌, Bool, List, [], ◌∷◌, length, length-take, take, drop, Option, arith,
}
use abstraction_identity.Errors.{Err}
use abstraction_identity.Listen.Wire.{masked, put_uint32, uint32}
use abstraction_identity.Listen.Stream.{Input, Writer, read_full}
use abstraction_identity.Listen.Frame.{
  Frame, frame, no_frame, read_frame, read_after_header, read_frame_body, write_headed_count,
}
use abstraction_identity.Listen.Client.{
  Word, word, no_word, read_uint32, Attempt, Turn, again, ends, Request, Outcome, take_body,
  answered, single_on_session, accepted, declined, opened, fresh_turn, pooled_turn, turn,
  after_turn, session_loop, session_call, flags_of, write_all,
}
use abstraction_identity.Listen.Client.Fallback.{
  Single, single_reply, single_exchange, singly_after, after_session, frame_call,
}

-- The bytes of a frame that was read.
abbrev body_of : Frame → List ℕ
body_of (frame body rest) = body
body_of (no_frame e) = []

body_bounded : (i : Input) (n limit : ℕ) → length (body_of (read_frame_body i n limit)) ≤ limit
unfolding read_frame_body read_full
body_bounded i n limit = ground (arith, length-take n i.pending)

after_bounded :
    (header : List ℕ) (rest : Input) (limit : ℕ)
    → length (body_of (read_after_header header rest limit)) ≤ limit
unfolding read_after_header
after_bounded [] rest limit = omega arith
after_bounded (a ∷ []) rest limit = omega arith
after_bounded (a ∷ b ∷ []) rest limit = omega arith
after_bounded (a ∷ b ∷ c ∷ []) rest limit = omega arith
after_bounded (a ∷ b ∷ c ∷ d ∷ l) rest limit =
    ground (arith, body_bounded rest (uint32 a b c d) limit)

frame_bounded : (i : Input) (limit : ℕ) → length (body_of (read_frame i limit)) ≤ limit
unfolding read_frame read_full
frame_bounded i limit = ground (
  arith,
  after_bounded (take 4 i.pending) (record { pending = drop 4 i.pending; ending = i.ending }) limit,
)

-- The reply of a round that ends the call.
abbrev reply_of : {S : Type 0} → Turn S → List ℕ
reply_of (again s) = []
reply_of (ends e reply single fate s) = reply

module _ {S : Type 0} (w : Writer S) (platform : Err → Bool) (r : Request) where
  module _ (a : Attempt S) where
    take_bounded :
        (header : ℕ) (f : Frame) (s : S)
        → length (body_of f) ≤ r.limit
        → length (reply_of (take_body w platform r a header f s)) ≤ r.limit
    unfolding take_body
    take_bounded header (no_frame e) s h = omega arith
    take_bounded header (frame body rest) s h = h

    answered_bounded :
        (x : Word) (s : S) → length (reply_of (answered w platform r a x s)) ≤ r.limit
    unfolding answered
    answered_bounded (no_word n e) s = omega arith
    answered_bounded (word header rest) s = ground (
      arith,
      take_bounded header (read_frame_body rest (masked header) r.limit) s
          (body_bounded rest (masked header) r.limit),
    )

    single_bounded :
        (rest : Input) (s : S) → length (single_on_session w platform r a rest s).1 ≤ r.limit
    unfolding single_on_session
    single_bounded rest s = ground (arith, frame_bounded rest r.limit)

    opened_bounded : (x : Word) (s : S) → length (reply_of (opened w platform r a x s)) ≤ r.limit
    unfolding opened declined accepted
    opened_bounded (no_word n e) s = ground arith
    opened_bounded (word ack rest) s =
        ground (
          arith,
          single_bounded rest s,
          answered_bounded (read_uint32 rest) (write_all w r.body s).1,
        )

    turn_bounded : length (reply_of (turn w platform r a)) ≤ r.limit
    unfolding turn fresh_turn pooled_turn
    turn_bounded = ground (
      arith,
      opened_bounded (read_uint32 a.input) (w.write a.state (put_uint32 (flags_of r))).2,
      answered_bounded (read_uint32 a.input)
          (write_headed_count w (flags_of r) r.body a.state).state,
    )

  after_turn_bounded :
      (i : ℕ) (rest : Outcome) (t : Turn S)
      → length rest.reply ≤ r.limit
      → length (reply_of t) ≤ r.limit
      → length (after_turn i rest t).reply ≤ r.limit
  unfolding after_turn
  after_turn_bounded i rest (again s) h k = h
  after_turn_bounded i rest (ends e reply single fate s) h k = k

  loop_bounded :
      (env : ℕ → Attempt S) (n i : ℕ) → length (session_loop w platform r env n i).reply ≤ r.limit
  unfolding session_loop
  loop_bounded env zero i = omega arith
  loop_bounded env (suc n) i =
      after_turn_bounded i (session_loop w platform r env n (suc i)) (turn w platform r (env i))
        (loop_bounded env n (suc i)) (turn_bounded (env i))

  single_reply_bounded : (i : Input) → length (single_reply w platform r i).1 ≤ r.limit
  unfolding single_reply
  single_reply_bounded i = ground (arith, frame_bounded i r.limit)

  exchange_bounded : (s : Single S) → length (single_exchange w platform r s).1 ≤ r.limit
  unfolding single_exchange
  exchange_bounded s = ground (arith, single_reply_bounded s.input)

  -- Whatever servers send, through a session, on a connection that declined one, or in the single
  -- exchange behind it: the reply that a call hands out is never longer than the call's limit.
  pub frame_call_bounded :
      (context : Option Err) (late asks : Bool) (env : ℕ → Attempt S) (s : Single S)
      → length (frame_call w platform r context late asks env s).reply ≤ r.limit
  unfolding frame_call after_session singly_after session_call
  frame_call_bounded context late asks env s =
      ground (arith, exchange_bounded s, loop_bounded env 3 0)
