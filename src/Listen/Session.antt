-- ===== src/Listen/Session.antt =====
-- listen/session.go, the server half of sessions: a session's limits, its retirement, and its way
-- from one exchange to the next.
pub mod Call
pub mod Limits
pub mod Admission
pub mod Pending
use abstraction_identity.Base.{
  ℕ, zero, suc, ◌+◌, ◌-◌, ◌≤◌, ◌<◌, Bool, true, false, not, ◌&&◌, ◌||◌, List, [], ◌∷◌, ◌++◌, ltb,
  leb, ◌==◌, if◌then◌else◌, length, Option, none, some,
}
use abstraction_identity.Errors.{Err, is, io_timeout}
use abstraction_identity.Peer.Types.{Time}
use abstraction_identity.Listen.Wire.{session_closing, put_uint32, uint32}

-- `DefaultSessionIdle`, `DefaultSessionMaxAge` and `DefaultFrameTimeout` in nanoseconds, and
-- `DefaultMaxSessions`
abbrev pub default_session_idle : ℕ
default_session_idle = 30_000_000_000

abbrev pub default_session_max_age : ℕ
default_session_max_age = 300_000_000_000

abbrev pub default_frame_timeout : ℕ
default_frame_timeout = 5_000_000_000

abbrev pub default_max_sessions : ℕ
default_max_sessions = 64

-- `SessionOptions`; a zero or negative value selects the default, and 0 stands for both here.
pub record SessionOptions : Type 0 where
  pub idle : ℕ
  pub max_age : ℕ
  pub max_sessions : ℕ
  pub first_request : ℕ

-- What `Sessions` makes of the options.
unfoldable pub session_options : SessionOptions → SessionOptions
session_options o = record {
  idle = if o.idle == 0 then default_session_idle else o.idle;
  max_age =
      if o.max_age == 0 || ltb default_session_max_age o.max_age
      then default_session_max_age
      else o.max_age;
  max_sessions = if o.max_sessions == 0 then default_max_sessions else o.max_sessions;
  first_request = if o.first_request == 0 then default_frame_timeout else o.first_request;
}

-- `sessionDeadline`
unfoldable pub session_deadline : Time → ℕ → Time → Time
session_deadline bound_at max_age evidence_until =
    let deadline = bound_at + max_age in
    if not (evidence_until == 0) && ltb evidence_until deadline then evidence_until else deadline

-- The part of `session` that its lock guards.
pub record Session : Type 0 where
  pub expires : Time
  pub idle : Bool
  pub active : Bool
  pub retiring : Bool

-- `session.expired` at a time
unfoldable pub expired : Session → Time → Bool
expired s now = not (s.expires == 0) && not (ltb now s.expires)

-- `session.retire`: whether the session was idle; an idle one has its blocked read interrupted.
unfoldable pub retire : Session → Session × Bool
retire s = (record s { retiring = true }, s.idle)

-- `session.isRetiring`
unfoldable pub is_retiring : Session → Time → Session × Bool
unfolding expired
is_retiring s now =
    let t = if expired s now then record s { retiring = true } else s in (t, t.retiring)

-- What `run` does after an exchange: end, end with the closing marker, or wait as an idle session
-- until a deadline.
pub data After : Type 0 where
  ended : After
  marked : After
  waits : Session → Time → After

-- The tail of the loop in `run`, from `<-call.done` on, at a time.
-- `no_timer` is whether the connection refuses the deadline.
unfoldable pub after_call :
    SessionOptions → Session → (broken continued no_timer : Bool) → Time → After
after_call o s broken continued no_timer now =
    if broken || not continued
    then ended
    else if s.retiring || expired s now
    then marked
    else if no_timer
    then ended
    else let deadline = now + o.idle in
      waits (record s { active = false; idle = true })
        (if ltb s.expires deadline then s.expires else deadline)

-- How the read of the next header ended: the bytes that came, and the error if fewer than four.
pub data HeaderRead : Type 0 where
  whole : (a b c d : ℕ) → HeaderRead
  partial : ℕ → Err → HeaderRead

-- What `nextHeader` makes of it: the session ends, with the closing marker or without, or the
-- next request's header is dispatched.
pub data Next : Type 0 where
  no_next : Next
  next_marked : Next
  next : ℕ → Next

abbrev pub header_count : HeaderRead → ℕ
header_count (whole a b c d) = 4
header_count (partial n e) = n

-- The rest of a header that was begun before an idle timeout: `more` is how that second read
-- ended, as the whole header or not.
abbrev dispatch : Bool → HeaderRead → Next
dispatch late (whole a b c d) = if late then no_next else next (uint32 a b c d)
dispatch late (partial n e) = no_next

-- `session.nextHeader`: `late` is whether the binding has expired by the first check, behind the
-- read, and `later` by the last one.
unfoldable pub next_header :
    Session → (late later : Bool) → HeaderRead → HeaderRead → Session × Next
next_header s late later first more =
    let t = record s { idle = false } in
    (
      t,
      if s.retiring || late
          then (if header_count first == 0 then next_marked else no_next)
          else elim first [
            | whole a b c d ↦ dispatch later (whole a b c d)
            | partial n e ↦
                if n == 0
                then (if is e io_timeout then next_marked else no_next)
                else if not (is e io_timeout)
                then no_next
                else dispatch later more
          ],
    )
