-- ===== src/Examples/Handlers.antt =====
-- Framed calls and pending connections at concrete inputs.
use abstraction_identity.Base.{
  ℕ, ◌≡◌, ◌≤◌, ◌<◌, ◌⊎◌, ◌++◌, length, arith, refl, true, false, List, [], ◌∷◌, none,
}
use abstraction_identity.Errors.{sentinel, eof, canceled, is}
use abstraction_identity.Binding.{peer_of, recheck}
use abstraction_identity.Binding.Lifetime.{IsOrderly}
use abstraction_identity.Listen.Wire.{session_decline, put_uint32}
use abstraction_identity.Listen.Stream.{Input, read_full}
use abstraction_identity.Listen.Frame.{
  write_frame, write_headed_count, write_parts, write_part, write_round, headed_parts,
  wait_frame_eof,
}
use abstraction_identity.Listen.Client.{read_uint32}
use abstraction_identity.Listen.Receive.{admit_length, admit_header}
use abstraction_identity.Listen.FramedCall.{
  FramedCall, ReplyWorld, replies, rechecks, closes_, expires, run, reply, finish_watching,
  finish_from, watched_reply, checked_reply, peer, put_reply, end_error,
}
use abstraction_identity.Listen.FramedCall.Once.{
  accepted_call, allowed, times_closed, framed_call_once,
}
use abstraction_identity.Listen.FramedCall.Replied.{IsAnswered, IsPut, reply_done}
use abstraction_identity.Listen.Session.Pending.{
  ReplayConn, replay_read, first_header, first_byte, decide,
}
use abstraction_identity.Listen.Session.Pending.Owner.{
  releases, interrupts_, accepted, moves, pending_exclusive,
}
use abstraction_identity.Listen.Session.Pending.Replay.{
  to_replay, replay_reads, first_header-replay_reads, declined_as_plain,
}
use abstraction_identity.Examples.Samples.{need, binding, log_writer, log_writer-Took}
use abstraction_identity.Examples.Receives.{two_bytes}

abbrev fair : ReplyWorld
fair = record {
  interrupt = none;
  watched = none;
  restore = none;
  recheck = none;
  input = record { pending = []; ending = sentinel eof };
  context_end = none;
  late = false;
  close_answer = none;
}

abbrev call : FramedCall (List ℕ)
call = accepted_call 100 binding []

framed_call_once_example :
    let k = run log_writer call (
      rechecks none
      ∷ replies fair (5 ∷ [])
      ∷ expires (sentinel canceled)
      ∷ closes_ none
      ∷ replies fair (6 ∷ [])
      ∷ closes_ none
      ∷ []) in
    (k.writes ≤ allowed k.replied) × (k.closes ≡ times_closed k.closed) × IsOrderly k.bound
framed_call_once_example = framed_call_once log_writer 100 binding [] (
    rechecks none
    ∷ replies fair (5 ∷ [])
    ∷ expires (sentinel canceled)
    ∷ closes_ none
    ∷ replies fair (6 ∷ [])
    ∷ closes_ none
    ∷ [])

reply_done_example :
    let k = reply log_writer call fair (5 ∷ []) in
    IsAnswered log_writer (λ t. t) log_writer-Took fair (5 ∷ []) call
    × IsPut log_writer (λ t. t) log_writer-Took fair (5 ∷ []) call k
unfolding reply finish_watching finish_from watched_reply checked_reply peer peer_of recheck
    put_reply end_error write_frame write_headed_count write_parts write_part write_round
    headed_parts wait_frame_eof is
reply_done_example = reply_done log_writer (λ t. t) log_writer-Took fair (5 ∷ []) call refl refl

pending_exclusive_example :
    let o = moves accepted (releases ∷ interrupts_ ∷ interrupts_ ∷ []) in
    (o.pending.interrupts ≤ 1) × ((o.handed ≡ 0) ⊎ (o.pending.interrupts ≡ 0))
pending_exclusive_example = pending_exclusive (releases ∷ interrupts_ ∷ interrupts_ ∷ [])

abbrev plain_request : Input
plain_request = record { pending = 0 ∷ 0 ∷ 0 ∷ 1 ∷ 5 ∷ []; ending = sentinel eof }

abbrev replayed : ReplayConn
replayed = record {
  prefix = 0 ∷ [];
  under = record { pending = 0 ∷ 0 ∷ 1 ∷ 5 ∷ []; ending = sentinel eof };
}

first_header-replay_reads_example :
    let (given, c) = replay_reads replayed ((4, 9) ∷ (2, 9) ∷ []) in
    (plain_request.pending ≡ given ++ (to_replay c).pending)
    × ((to_replay c).ending ≡ sentinel eof)
    × (((to_replay c).pending ≡ []) ⊎ (0 < length (replay_read c 8 1).0))
unfolding first_header first_byte read_full
first_header-replay_reads_example =
    first_header-replay_reads true none plain_request replayed ((4, 9) ∷ (2, 9) ∷ []) 8 1
      (omega arith) (omega arith) refl

abbrev behind : Input
behind = record { pending = 5 ∷ []; ending = sentinel eof }

declined_as_plain_example :
    (put_uint32 session_decline ≡ put_uint32 session_decline)
    × (admit_header two_bytes need 100
          (read_uint32 (to_replay (record { prefix = 0 ∷ 0 ∷ 0 ∷ 1 ∷ []; under = behind })))
        ≡ admit_length two_bytes need 100 [] 1 behind)
unfolding decide
declined_as_plain_example =
    declined_as_plain 0x80000001 behind (record { prefix = 0 ∷ 0 ∷ 0 ∷ 1 ∷ []; under = behind })
      (put_uint32 session_decline) two_bytes need 100 refl
