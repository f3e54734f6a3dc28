-- ===== src/Listen/Client/Fallback.antt =====
-- listen/framed.go: a whole call of a FrameClient (ExchangeFrameContext and WriteFrameContext): the
-- message transport, the pool, and the single exchange on a connection of its own.
pub mod Bounds
use abstraction_identity.Base.{
  ℕ, ◌≤◌, ◌<◌, Bool, true, false, not, ◌&&◌, List, [], ltb, leb, if◌then◌else◌, length, Option,
  none, some,
}
use abstraction_identity.Errors.{Err, sentinel, is, no_session, frame_too_large}
use abstraction_identity.Listen.Wire.{length_mask}
use abstraction_identity.Listen.Stream.{Input, Writer}
use abstraction_identity.Listen.Frame.{
  Written, write_frame, Frame, frame, no_frame, read_frame, wait_frame_eof,
}
use abstraction_identity.Listen.FramedCall.{end_error}
use abstraction_identity.Listen.Client.{
  Attempt, Request, Outcome, session_call, refusal_after_write_error,
}

-- What the world answers to a single exchange.
pub record Single (S : Type 0) : Type 0 where
  pub connect : Option Err
  pub state : S
  pub input : Input
  pub ended : Bool

-- What a call gives its caller, and what it opened on the way: the rounds through the pool, and
-- whether there was a single exchange.
pub record Result : Type 0 where
  pub error : Option Err
  pub reply : List ℕ
  pub rounds : ℕ
  pub singly : Bool

module _ {S : Type 0} (w : Writer S) (platform : Err → Bool) (r : Request) where
  -- The reply of a single exchange that was written.
  unfoldable pub single_reply : Input → Option Err × List ℕ
  single_reply i =
      if r.one_way
      then (wait_frame_eof i, [])
      else elim (read_frame i r.limit) [ frame body _ ↦ (none, body) | no_frame e ↦ (some e, []) ]

  -- The single exchange.
  unfoldable pub single_exchange : Single S → Option Err × List ℕ
  single_exchange s = elim s.connect [
    | some e ↦ (some e, [])
    | none ↦
        let x = write_frame w r.body r.limit s.state in
        elim x.error [
          | some e ↦ (some (refusal_after_write_error platform s.ended s.input e false), [])
          | none ↦ single_reply s.input
        ]
  ]

  -- `FrameClient.sessions`
  unfoldable pub asks_sessions : (sessions custom single : Bool) → Bool
  asks_sessions sessions custom single =
      sessions && (not custom && (leb (length r.body) length_mask && not single))

  module _ (context : Option Err) (late : Bool) where
    unfoldable pub singly_after : (rounds : ℕ) → Single S → Result
    singly_after rounds s =
        let x = single_exchange s in
        record { error = end_error context late x.0; reply = x.1; rounds = rounds; singly = true }

    abbrev pub is_no_session : Option Err → Bool
    is_no_session none = false
    is_no_session (some e) = is e no_session

    -- Behind the call through the pool.
    unfoldable pub after_session : Outcome → Single S → Result
    after_session o s = if is_no_session o.error then singly_after o.rounds s else record {
      error = end_error context late o.error;
      reply = o.reply;
      rounds = o.rounds;
      singly = false;
    }

    -- The whole call, where the message transport does not handle it; `asks` is `sessions`.
    unfoldable pub frame_call : (asks : Bool) → (ℕ → Attempt S) → Single S → Result
    frame_call asks env s =
        if ltb r.limit (length r.body)
        then record {
          error = some (sentinel frame_too_large);
          reply = [];
          rounds = 0;
          singly = false;
        }
        else if asks
        then after_session (session_call w platform r env) s
        else singly_after 0 s
