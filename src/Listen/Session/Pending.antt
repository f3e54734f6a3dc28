-- ===== src/Listen/Session/Pending.antt =====
-- listen/session.go, a connection before it is a session: who owns it, its first header, and what
-- is handed on of one that opens no session.
pub mod Owner
pub mod Replay
use abstraction_identity.Base.{
  ℕ, ◌+◌, ◌-◌, ◌/◌, ◌%◌, ◌<◌, Bool, true, false, not, ◌&&◌, ◌||◌, List, [], ◌∷◌, ◌++◌, ◌==◌, ltb,
  if◌then◌else◌, length, take, drop, Option, none, some,
}
use Prim.Native.Nat.{min}
use abstraction_identity.Errors.{Err}
use abstraction_identity.Listen.Wire.{session_closing, session_decline, masked, put_uint32, uint32}
use abstraction_identity.Listen.Stream.{Input, Full, full, short, read_full}
use abstraction_identity.Listen.Session.{Session}
use abstraction_identity.Listen.Session.Admission.{admit}

-- `pendingSessionConn`; `interrupts` is how often an interruption closed the connection.
pub record Pending : Type 0 where
  pub owned : Bool
  pub closed : Bool
  pub interrupts : ℕ

-- `release`
unfoldable pub release : Pending → Pending × Bool
release p = if p.closed then (p, false) else (record p { owned = false }, true)

-- `interrupt`
unfoldable pub interrupt : Pending → Pending
interrupt p =
    if not p.owned || p.closed then p else record p { closed = true; interrupts = p.interrupts + 1 }

-- `replayConn`: what the listener has read already, and the connection behind it.
pub record ReplayConn : Type 0 where
  pub prefix : List ℕ
  pub under : Input

-- `replayConn.Read` into `room` bytes, of which the connection gives at most `arrives`.
unfoldable pub replay_read : ReplayConn → (room arrives : ℕ) → List ℕ × ReplayConn
replay_read c room arrives =
    if ltb 0 (length c.prefix)
    then (take room c.prefix, record c { prefix = drop room c.prefix })
    else (
      take (min room arrives) c.under.pending,
      record c {
        under = record {
          pending = drop (min room arrives) c.under.pending;
          ending = c.under.ending;
        };
      },
    )

-- What `firstHeader` makes of a connection: it is handed on with what was read of it, it is
-- closed, or it opens a session.
pub data First : Type 0 where
  hands_on : ReplayConn → First
  fails : First
  opens : (header : ℕ) → Input → First

-- Behind the first byte, which has the session bit.
unfoldable pub first_rest : ℕ → Full → First
first_rest b (short n e) = fails
first_rest b (full (c ∷ d ∷ e ∷ _) rest) =
    if uint32 b c d e == session_closing then fails else opens (uint32 b c d e) rest
first_rest b (full _ rest) = fails

unfoldable pub first_byte : Full → First
first_byte (short n e) = fails
first_byte (full (b ∷ _) rest) =
    if b / 128 % 2 == 0
    then hands_on (record { prefix = b ∷ []; under = rest })
    else first_rest b (read_full 3 rest)
first_byte (full [] rest) = fails

-- `firstHeader`: whether the connection has deadlines, and what setting one gives.
unfoldable pub first_header : (has_deadline : Bool) → (deadline : Option Err) → Input → First
first_header has_deadline deadline i =
    if not has_deadline
    then hands_on (record { prefix = []; under = i })
    else elim deadline [ some e ↦ fails | none ↦ first_byte (read_full 1 i) ]

-- What `prepare` makes of a connection: a session begins, the connection is handed on (where its
-- release still holds), or it is closed; `sent` is what the client was sent.
pub data Prepared : Type 0 where
  begins : (header : ℕ) → Input → Prepared
  handed_on : ReplayConn → (sent : List ℕ) → Prepared
  dropped : Prepared

-- A connection that opens a session, admitted or declined.
unfoldable pub decide : (admitted : Bool) → (answer : Option Err) → (header : ℕ) → Input → Prepared
decide true answer header rest = begins header rest
decide false (some e) header rest = dropped
decide false none header rest =
    handed_on (record { prefix = put_uint32 (masked header); under = rest })
      (put_uint32 session_decline)

unfoldable pub prepare_first :
    ℕ → (done : Bool) → (answer : Option Err) → List Session → First → List Session × Prepared
prepare_first max_sessions done answer ss fails = (ss, dropped)
prepare_first max_sessions done answer ss (hands_on c) = (ss, handed_on c [])
prepare_first max_sessions done answer ss (opens header rest) =
    let r = admit max_sessions done ss in (r.0, decide r.1 answer header rest)

-- `prepare`, of a stream connection
unfoldable pub prepare :
    ℕ
    → (done : Bool) → (answer : Option Err) → List Session
    → (has_deadline : Bool) → (deadline : Option Err) → Input
    → List Session × Prepared
prepare max_sessions done answer ss has_deadline deadline i =
    prepare_first max_sessions done answer ss (first_header has_deadline deadline i)
