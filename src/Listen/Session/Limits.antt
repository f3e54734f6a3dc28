-- ===== src/Listen/Session/Limits.antt =====
-- The bounds of a session's life, and when its connection carries a next request.
use abstraction_identity.Base.{ℕ, ◌+◌, ◌≤◌, ◌<◌, ◌≡◌, ◌⊎◌, Bool, true, false, arith}
use abstraction_identity.Peer.Types.{Time}
use abstraction_identity.Listen.Session.{
  SessionOptions, session_options, default_session_max_age, session_deadline, Session, expired,
  after_call, waits, HeaderRead, whole, partial, header_count, next_marked, next, next_header,
}

-- Whatever options are given, a session listener runs with a positive idle time, first-request
-- time and session bound, and with a positive binding age of at most five minutes.
pub session_options_bounds :
    (o : SessionOptions)
    → let r = session_options o in
      (0 < r.idle)
      × (0 < r.max_age)
      × (r.max_age ≤ default_session_max_age)
      × (0 < r.max_sessions)
      × (0 < r.first_request)
unfolding session_options
session_options_bounds o = ground arith

-- A session serves new requests no longer than the binding's maximum age, and not past the expiry
-- of its evidence where one was recorded; it is one of the two.
pub session_deadline_bounds :
    (bound_at max_age evidence_until : ℕ)
    → let d = session_deadline bound_at max_age evidence_until in
      (d ≤ bound_at + max_age)
      × ((evidence_until ≡ 0) ⊎ (d ≤ evidence_until))
      × ((d ≡ bound_at + max_age) ⊎ (d ≡ evidence_until))
unfolding session_deadline
session_deadline_bounds bound_at max_age evidence_until = ground arith

-- A session waits for a next request only if the exchange left it in step (not broken, and the
-- client told that it continues), the connection keeps deadlines, it is not to retire and it has
-- not expired; it waits no longer than its idle time and never past its expiry.
pub after_call-waits :
    (o : SessionOptions) (s t : Session) (broken continued no_timer : Bool) (now deadline : Time)
    → after_call o s broken continued no_timer now ≡ waits t deadline
    → (broken ≡ false)
      × (continued ≡ true)
      × (no_timer ≡ false)
      × (s.retiring ≡ false)
      × (expired s now ≡ false)
      × (deadline ≤ now + o.idle)
      × (deadline ≤ s.expires)
      × (t.idle ≡ true)
unfolding after_call
after_call-waits o s t broken continued no_timer now deadline h = ground arith

-- The closing marker is sent only where no byte of a next request was read, so the client may
-- repeat that request elsewhere.
pub next_header-marked :
    (s : Session) (late later : Bool) (first more : HeaderRead)
    → (next_header s late later first more).1 ≡ next_marked
    → header_count first ≡ 0
unfolding next_header
next_header-marked s late later (whole a b c d) more h = ground arith
next_header-marked s late later (partial n e) (whole a b c d) h = ground arith
next_header-marked s late later (partial n e) (partial m x) h = ground arith

-- A next request is dispatched only from a session that was not to retire and whose binding had
-- expired neither behind the first read nor at the end.
pub next_header-dispatch :
    (s : Session) (late later : Bool) (first more : HeaderRead) (header : ℕ)
    → (next_header s late later first more).1 ≡ next header
    → (s.retiring ≡ false) × (late ≡ false) × (later ≡ false)
unfolding next_header
next_header-dispatch s late later (whole a b c d) more header h = ground arith
next_header-dispatch s late later (partial n e) (whole a b c d) header h = ground arith
next_header-dispatch s late later (partial n e) (partial m x) header h = ground arith
