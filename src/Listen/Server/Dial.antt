-- ===== src/Listen/Server/Dial.antt =====
-- How a client comes to a connection: FrameClient.connect of listen/framed.go, dialSession of
-- listen/pool.go, and serverConn's authenticate, use and Close of listen/server.go.
use abstraction_identity.Base.{
  ◌≡◌, refl, Bool, true, false, ◌&&◌, if◌then◌else◌, inl, inr, Bool-cases, codes, Option, none,
  some, arith,
}
use abstraction_identity.Errors.{Err, sentinel, net_closed, server_untrusted, message, wrap}
use abstraction_identity.Peer.Types.{Peer}
use abstraction_identity.Program.{Files}
use abstraction_identity.Listen.Server.{ServerExpectation, validate, ServerConn, check_locked}
use abstraction_identity.Listen.Server.Trust.{IsExpected, server_check_iff}

-- What `BindServerConn` gives.
pub data ServerBind : Type 0 where
  unbound : Err → ServerBind
  bound : Peer → ServerBind

-- The bind of `authenticate`, and the first check.
unfoldable pub authenticate_bound :
    Files
    → ServerExpectation
    → ServerBind
    → (checked recheck : Option Err) → ServerConn
    → ServerConn × Option Err
authenticate_bound f e (unbound x) checked recheck c =
    (c, some (wrap (sentinel server_untrusted) x))
authenticate_bound f e (bound p) checked recheck c =
    let d = record c { expected = some (e, p) } in (d, check_locked f d checked recheck)

-- `serverConn.authenticate`; `context` and `checked` are the context's error at the beginning and at
-- the check behind the bind.
unfoldable pub authenticate :
    Files
    → Option ServerExpectation
    → (context : Option Err) → ServerBind
    → (checked recheck : Option Err) → ServerConn
    → ServerConn × Option Err
authenticate f server context b checked recheck c =
    if c.closed then (c, some (sentinel net_closed)) else elim context [
      | some x ↦ (c, some x)
      | none ↦ elim server [
        | none ↦ (c, none)
        | some e ↦ authenticate_bound f e b checked recheck c
      ]
    ]

-- `serverConn.use`: whether it can be used by a call; `deadline` is what setting one gives.
unfoldable pub use_conn : ServerConn → (deadline : Option Err) → Option Err
use_conn c deadline = if c.closed then some (sentinel net_closed) else deadline

-- `serverConn.Close`
unfoldable pub close_conn : ServerConn → ServerConn
close_conn c = record c { closed = true }

-- What the world answers to a dial. `stopped` is the context's error where `stop` did not detach the
-- dial from it, which is so only of a context that has ended.
pub record Dial : Type 0 where
  pub dialled : Option Err
  pub deadline : Option Err
  pub context : Option Err
  pub bind : ServerBind
  pub checked : Option Err
  pub recheck : Option Err
  pub stopped : Option Err

-- A connection, or an error.
pub data Dialled : Type 0 where
  connected : ServerConn → Dialled
  refused : Err → Dialled

-- A connection that failed to authenticate is closed.
unfoldable pub authenticated : ServerConn × Option Err → Dialled
authenticated (c, some e) = refused e
authenticated (c, none) = connected c

abbrev pub validate_all : Files → Option ServerExpectation → Option Err
validate_all f none = none
validate_all f (some e) = validate f e

-- What `dialSession` and `connect` have in common: the validation, the dial, the deadline and the
-- authentication.
unfoldable pub dial_server : Files → Option ServerExpectation → Dial → Dialled
dial_server f server d = elim (validate_all f server) [
  | some e ↦ refused e
  | none ↦ elim d.dialled [
    | some e ↦ refused e
    | none ↦ elim d.deadline [
      | some e ↦ refused e
      | none ↦ authenticated (
          authenticate f server d.context d.bind d.checked d.recheck
            (record { closed = false; expected = none }))
    ]
  ]
]

-- The test of `stop()` in `dialSession`, which comes before the authentication's error is read; that
-- error is returned all the same.
unfoldable pub unless_stopped : (stopped : Option Err) → Dialled → Dialled
unless_stopped stopped (refused e) = refused e
unless_stopped none (connected c) = connected c
unless_stopped (some e) (connected c) = refused e

-- `dialSession`
unfoldable pub dial_session : Files → Option ServerExpectation → Dial → Dialled
dial_session f server d = unless_stopped d.stopped (dial_server f server d)

abbrev pub is_given : Option ServerExpectation → Bool
is_given none = false
is_given (some e) = true

-- `FrameClient.connect`; `custom` is whether the client has a dialer of its own.
unfoldable pub connect : Files → (custom : Bool) → Option ServerExpectation → Dial → Dialled
connect f custom server d =
    if custom && is_given server
    then refused (
        message (sentinel server_untrusted)
          (codes ": custom transport with local server expectation"))
    else dial_server f server d

-- The connection is bound to the server that was expected.
pub record IsTrusted (f : Files) (e : ServerExpectation) (d : Dial) (c : ServerConn) : Type 0 where
  pub valid : validate f e ≡ none
  pub dialled : d.dialled ≡ none
  pub running : d.context ≡ none
  pub still_running : d.checked ≡ none
  pub peer : Peer
  pub bound_to : d.bind ≡ bound peer
  pub expects : c.expected ≡ some (e, peer)
  pub open_ : c.closed ≡ false
  pub found : d.recheck ≡ none
  pub expected : IsExpected f e peer

bound_trusted :
    (f : Files) (e : ServerExpectation) (b : ServerBind) (checked recheck : Option Err)
    (c conn : ServerConn)
    → authenticated (authenticate_bound f e b checked recheck c) ≡ connected conn
    → (p : Peer) × (b ≡ bound p)
      × (conn.expected ≡ some (e, p))
      × (conn.closed ≡ false)
      × (checked ≡ none)
      × (recheck ≡ none)
      × IsExpected f e p
unfolding authenticated authenticate_bound check_locked
bound_trusted f e (unbound x) checked recheck c conn h = cc
bound_trusted f e (bound p) checked recheck c conn h =
    let (found, expected) = (server_check_iff f e recheck p).0 (ground (arith, h)) in
    (p, refl, ground arith, ground arith, ground arith, found, expected)

abbrev unexpecting : ServerConn
unexpecting = record { closed = false; expected = none }

authenticate_trusted :
    (f : Files) (e : ServerExpectation) (context : Option Err) (b : ServerBind)
    (checked recheck : Option Err) (conn : ServerConn)
    → authenticated (authenticate f (some e) context b checked recheck unexpecting) ≡ connected conn
    → (context ≡ none)
      × (authenticated (authenticate_bound f e b checked recheck unexpecting) ≡ connected conn)
unfolding authenticate authenticated
authenticate_trusted f e none b checked recheck conn h = (refl, h)
authenticate_trusted f e (some x) b checked recheck conn h = cc

dial_server-IsTrusted :
    (f : Files) (e : ServerExpectation) (d : Dial) (conn : ServerConn)
    → dial_server f (some e) d ≡ connected conn
    → IsTrusted f e d conn
unfolding dial_server
dial_server-IsTrusted f e d conn h =
    let (running, through) =
      authenticate_trusted f e d.context d.bind d.checked d.recheck conn (ground arith) in
    let (p, q, expects, open_, still, found, expected) =
      bound_trusted f e d.bind d.checked d.recheck unexpecting conn through in
    record {
      valid = ground arith;
      dialled = ground arith;
      running = running;
      still_running = still;
      peer = p;
      bound_to = q;
      expects = expects;
      open_ = open_;
      found = found;
      expected = expected;
    }

-- A client with a server expectation comes to a connection only by the local dialer, with a
-- well-formed expectation, and only if its context has not ended when the server is checked and the
-- connection is bound to a peer that a recheck finds nothing against and that is the expected
-- server; the connection keeps that expectation and that peer for its later checks.
pub connect-IsTrusted :
    (f : Files) (custom : Bool) (e : ServerExpectation) (d : Dial) (conn : ServerConn)
    → connect f custom (some e) d ≡ connected conn
    → (custom ≡ false) × IsTrusted f e d conn
unfolding connect
connect-IsTrusted f custom e d conn h = elim (Bool-cases custom) [
  | inl own ↦ absurd (ground (arith, h, own))
  | inr local ↦ (local, dial_server-IsTrusted f e d conn (ground (arith, h, local)))
]

-- A connection that is dialled for the pool is trusted in the same way, and its dial was detached
-- from the context in time.
pub dial_session-IsTrusted :
    (f : Files) (e : ServerExpectation) (d : Dial) (conn : ServerConn)
    → dial_session f (some e) d ≡ connected conn
    → (d.stopped ≡ none) × IsTrusted f e d conn
unfolding dial_session unless_stopped
dial_session-IsTrusted f e d conn h =
    let (stopped, through) = unless_connected d.stopped (dial_server f (some e) d) h in
    (stopped, dial_server-IsTrusted f e d conn through)
  where
    unless_connected :
        (x : Option Err) (y : Dialled)
        → unless_stopped x y ≡ connected conn
        → (x ≡ none) × (y ≡ connected conn)
    unless_connected x (refused z) g = ground (arith, g)
    unless_connected none (connected c) g = (refl, g)
    unless_connected (some z) (connected c) g = ground (arith, g)
