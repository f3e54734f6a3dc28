-- ===== src/Listen/FramedCall.antt =====
-- listen/framed.go: FramedCall on a stream connection: its watch for the caller's end, its one
-- reply, its recheck and its close. Each method is a whole step; what the connection, the platform
-- and the clock answer is given. The message transport's branch is left out.
pub mod Once
pub mod Replied
use abstraction_identity.Base.{
  ℕ, ◌+◌, ◌<◌, ◌≤◌, Bool, true, false, not, ◌&&◌, List, [], ◌∷◌, ◌++◌, ltb, if◌then◌else◌, length,
  Option, none, some,
}
use abstraction_identity.Errors.{
  Err, sentinel, is, net_closed, canceled, closed_pipe, frame_too_large, io_timeout,
}
use abstraction_identity.Binding.{Binding, BindingState, Answer, answered, refused, peer_of}
use abstraction_identity.Binding
use abstraction_identity.Listen.Stream.{Input, Writer}
use abstraction_identity.Listen.Frame.{Written, write_frame, wait_frame_eof}
use abstraction_identity.Listen.Receive.{frame_error}

-- The observation of the caller: not begun, ruled out by a reply, or begun.
pub data Watch : Type 0 where
  unwatched unwatching watching : Watch

-- `FramedCall`: `context` is the error of its context, `writes` how often a reply was put on the
-- connection, `closes` how often the connection was closed.
pub record FramedCall (S : Type 0) : Type 0 where
  pub limit : ℕ
  pub binding : Binding
  pub bound : BindingState
  pub context : Option Err
  pub closed : Bool
  pub replied : Bool
  pub reply_error : Option Err
  pub watch : Watch
  pub writer : S
  pub writes : ℕ
  pub closes : ℕ

-- What the world answers while a reply runs: the interruption of the watch, what the watch met,
-- the deadline's restoration, the platform's recheck, the input behind the reply, and whether the
-- context has ended, or its deadline passed, by the end.
pub record ReplyWorld : Type 0 where
  pub interrupt : Option Err
  pub watched : Option Err
  pub restore : Option Err
  pub recheck : Option Err
  pub input : Input
  pub context_end : Option Err
  pub late : Bool
  pub close_answer : Option Err

-- `frameError`, of a call that may have met no error: an ended context is an error of its own.
unfoldable pub end_error : (context : Option Err) → (late : Bool) → Option Err → Option Err
end_error (some x) late e = some x
end_error none late none = none
end_error none late (some e) = some (frame_error none late e)

abbrev pub canceled_by : Option Err → Option Err
canceled_by none = some (sentinel canceled)
canceled_by (some e) = some e

-- What a handler, and the end of the call's context, do with a call.
pub data Op : Type 0 where
  replies : ReplyWorld → List ℕ → Op
  rechecks : Option Err → Op
  waits : Op
  closes_ : Option Err → Op
  expires : Err → Op

module _ {S : Type 0} (w : Writer S) where
  -- `Close`: the connection, then the binding.
  unfoldable pub close : FramedCall S → (answer : Option Err) → FramedCall S
  close k answer = if k.closed then k else record k {
    closed = true;
    context = canceled_by k.context;
    closes = k.closes + 1;
    bound = (Binding.close k.binding k.bound answer).0;
  }

  -- `Peer`
  unfoldable pub peer : FramedCall S → (answer : Option Err) → FramedCall S × Answer
  peer k answer = if k.closed then (k, refused (sentinel net_closed)) else elim k.context [
    | some e ↦ (k, refused e)
    | none ↦ let r = peer_of k.binding k.bound answer in (record k { bound = r.0 }, r.1)
  ]

  -- `WaitContext`, by the state of the watch
  unfoldable pub wait_from : Watch → FramedCall S → FramedCall S
  wait_from unwatched k = record k { watch = watching }
  wait_from unwatching k = k
  wait_from watching k = k

  unfoldable pub wait_context : FramedCall S → FramedCall S
  wait_context k = wait_from k.watch k

  -- What the watch met, once it was interrupted and the deadline is restored.
  unfoldable pub watch_error : (context watched : Option Err) → Option Err
  watch_error context none = some (sentinel closed_pipe)
  watch_error context (some e) = if is e io_timeout then context else some e

  -- `finishWatching`, by the state of the watch
  unfoldable pub finish_from : Watch → FramedCall S → ReplyWorld → FramedCall S × Option Err
  finish_from unwatched k v = (record k { watch = unwatching }, none)
  finish_from unwatching k v = (k, none)
  finish_from watching k v = elim v.interrupt [
    | some e ↦ (close k v.close_answer, some e)
    | none ↦ elim v.restore [ some e ↦ (k, some e) | none ↦ (k, watch_error k.context v.watched) ]
  ]

  unfoldable pub finish_watching : FramedCall S → ReplyWorld → FramedCall S × Option Err
  finish_watching k v = finish_from k.watch k v

  -- The frame is written, and the caller's end awaited.
  unfoldable pub put_reply : FramedCall S → ReplyWorld → List ℕ → FramedCall S
  put_reply k v frame =
      if ltb k.limit (length frame)
      then record k {
        reply_error = end_error v.context_end v.late (some (sentinel frame_too_large));
      }
      else (let x = write_frame w frame k.limit k.writer in
          record k {
            writer = x.state;
            writes = k.writes + 1;
            reply_error =
                end_error v.context_end v.late
                  (elim x.error [ some e ↦ some e | none ↦ wait_frame_eof v.input ]);
          })

  unfoldable pub checked_reply : FramedCall S × Answer → ReplyWorld → List ℕ → FramedCall S
  checked_reply (k, refused e) v frame = record k { reply_error = some e }
  checked_reply (k, answered p) v frame = put_reply k v frame

  unfoldable pub watched_reply : FramedCall S × Option Err → ReplyWorld → List ℕ → FramedCall S
  watched_reply (k, some e) v frame = record k { reply_error = end_error k.context v.late (some e) }
  watched_reply (k, none) v frame = checked_reply (peer k v.recheck) v frame

  -- `Reply`: the first call alone does anything.
  unfoldable pub reply : FramedCall S → ReplyWorld → List ℕ → FramedCall S
  reply k v frame =
      if k.replied
      then k
      else record (watched_reply (finish_watching k v) v frame) { replied = true }

  unfoldable pub step : FramedCall S → Op → FramedCall S
  step k (replies v frame) = reply k v frame
  step k (rechecks answer) = (peer k answer).0
  step k waits = wait_context k
  step k (closes_ answer) = close k answer
  step k (expires e) = record k { context = elim k.context [ some x ↦ some x | none ↦ some e ] }

  unfoldable pub run : FramedCall S → List Op → FramedCall S
  run k [] = k
  run k (o ∷ os) = run (step k o) os
