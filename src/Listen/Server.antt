-- ===== src/Listen/Server.antt =====
-- listen/server.go: a client's expectation of the server it reaches, and the connection that
-- rechecks it around every read and write.
pub mod Trust
pub mod Dial
use abstraction_identity.Base.{
  ℕ, Bool, true, false, not, ◌&&◌, ◌||◌, List, [], ◌∷◌, ◌++◌, ◌==◌, if◌then◌else◌, Str, codes,
  str_eq, is_empty, ℤ, int_eq, is_negative, is_nonpositive, Option, none, some,
}
use abstraction_identity.Proof.{proof_bound, proof_kernel, proven, unproven, at_least}
use abstraction_identity.Errors.{
  Err, sentinel, net_closed, server_untrusted, message, wrap, plain, proof,
}
use abstraction_identity.Peer.Types.{User, Process, Peer}
use abstraction_identity.Program.{Files, same_subject_program}

-- `ServerExpectation`
pub record ServerExpectation : Type 0 where
  pub principal : User
  pub program : Str
  pub process : Option Process

-- `strings.IndexByte(program, 0) >= 0`
unfoldable pub has_nul : Str → Bool
has_nul [] = false
has_nul (b ∷ s) = b == 0 || has_nul s

pub bad_process : Option Process → Bool
bad_process none = false
bad_process (some p) = is_nonpositive p.pid || p.start_time == 0

pub valid_user : User → Bool
valid_user u =
    (str_eq u.kind (codes "windows") && not (is_empty u.sid))
    || (str_eq u.kind (codes "posix") && not (is_negative u.uid))

-- `ServerExpectation.validate`
unfoldable pub validate : Files → ServerExpectation → Option Err
unfolding has_nul bad_process valid_user
validate f e =
    if not (valid_user e.principal)
      || (not (f.is_abs e.program) || (has_nul e.program || bad_process e.process))
    then some (
        message (sentinel server_untrusted)
          (codes ": incomplete principal, absolute program, or process instance"))
    else none

-- The comparison of principals in `check`.
unfoldable pub other_principal : User → User → Bool
other_principal u expected =
    not (str_eq u.kind expected.kind)
    || ((str_eq u.kind (codes "windows") && not (str_eq u.sid expected.sid))
        || (str_eq u.kind (codes "posix") && not (int_eq u.uid expected.uid)))

unfoldable pub other_process : Process → Option Process → Bool
other_process p none = false
other_process p (some expected) =
    not (int_eq p.pid expected.pid) || not (p.start_time == expected.start_time)

-- The end of `check`, over the three attributes.
unfoldable pub check_values : Files → ServerExpectation → User → Process → Str → Option Err
check_values f e u process path =
    if other_principal u e.principal
    then some (plain (codes "server principal mismatch"))
    else if not (same_subject_program f path e.program)
    then some (plain (codes "server program mismatch"))
    else if other_process process e.process
    then some (plain (codes "server process instance mismatch"))
    else none

-- `ServerExpectation.check` of the peer that the binding answers with; a recheck that fails is
-- `some` error.
unfoldable pub check : Files → ServerExpectation → Option Err → Peer → Option Err
check f e (some x) p = some x
check f e none p = elim (at_least p.user proof_bound) [
  | unproven x ↦ some (proof x)
  | proven u ↦ elim (at_least p.process proof_kernel) [
    | unproven x ↦ some (proof x)
    | proven process ↦ elim (at_least p.path proof_bound) [
      | unproven x ↦ some (proof x)
      | proven path ↦ check_values f e u process path
    ]
  ]
]

-- `serverConn`: whether it is closed, and what it is bound to and expects, if it expects anything.
pub record ServerConn : Type 0 where
  pub closed : Bool
  pub expected : Option (ServerExpectation × Peer)

-- `serverConn.checkLocked`, where the call's context and the platform's recheck answer.
unfoldable pub check_locked : Files → ServerConn → (context recheck : Option Err) → Option Err
check_locked f c context recheck = if c.closed then some (sentinel net_closed) else elim context [
  | some x ↦ some x
  | none ↦ elim c.expected [
    | none ↦ none
    | some (e, p) ↦ elim (check f e recheck p) [
      | none ↦ none
      | some x ↦ some (wrap (sentinel server_untrusted) x)
    ]
  ]
]

-- What the checks before and after a read meet: whether the connection is closed by then, the
-- context's error, and the platform's recheck.
pub record Moment : Type 0 where
  pub closed : Bool
  pub context : Option Err
  pub recheck : Option Err

abbrev pub at_moment : Files → ServerConn → Moment → Option Err
at_moment f c m = check_locked f (record c { closed = c.closed || m.closed }) m.context m.recheck

-- `serverConn.Read`: the bytes and the error that the caller gets, where the connection's own
-- `Read` gives `bytes` and `e`.
unfoldable pub read :
    Files → ServerConn → (before after : Moment) → List ℕ → Option Err → List ℕ × Option Err
read f c before after bytes e = elim (at_moment f c before) [
  | some x ↦ ([], some x)
  | none ↦ elim (at_moment f c after) [ some x ↦ ([], some x) | none ↦ (bytes, e) ]
]

-- `serverConn.Write`: what reaches the connection, and the error.
unfoldable pub write :
    Files → ServerConn → (before : Moment) → List ℕ → Option Err → List ℕ × Option Err
write f c before bytes e = elim (at_moment f c before) [ some x ↦ ([], some x) | none ↦ (bytes, e) ]
