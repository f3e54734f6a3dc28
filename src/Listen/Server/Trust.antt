-- ===== src/Listen/Server/Trust.antt =====
-- What a client that expects a server accepts from a connection.
use abstraction_identity.Base.{
  ℕ, ◌≤◌, ◌≡◌, ◌≢◌, ◌↔◌, inl, inr, refl, true, false, ◌||◌, List, [], codes, str_eq→eq, eq→str_eq,
  Option, none, some, arith, Option-cases,
}
use abstraction_identity.Proof.{proof_bound, proof_kernel, at_least}
use abstraction_identity.Errors.{Err}
use abstraction_identity.Peer.Types.{User, Peer}
use abstraction_identity.Program.{Files, same_subject_program}
use abstraction_identity.Listen.Server.{
  ServerExpectation, other_principal, other_process, check_values, check, ServerConn, check_locked,
  Moment, at_moment, read,
}

-- The peer is the server that the expectation names.
pub record IsExpected (f : Files) (e : ServerExpectation) (p : Peer) : Type 0 where
  pub user_proof : proof_bound ≤ p.user.proof
  pub process_proof : proof_kernel ≤ p.process.proof
  pub path_proof : proof_bound ≤ p.path.proof
  pub principal : other_principal p.user.value e.principal ≡ false
  pub program : same_subject_program f p.path.value e.program ≡ true
  pub instance_ : other_process p.process.value e.process ≡ false

-- Two principals that the check does not tell apart have one kind, and one SID where that kind is
-- windows.
pub same_principal :
    (u expected : User)
    → other_principal u expected ≡ false
    → (u.kind ≡ expected.kind) × (u.kind ≡ codes "windows" → u.sid ≡ expected.sid)
unfolding other_principal
same_principal u expected h = (
  str_eq→eq u.kind expected.kind (ground arith),
  λ w. str_eq→eq u.sid expected.sid (ground (arith, eq→str_eq u.kind (codes "windows") w)),
)

-- The check passes exactly where the recheck finds nothing and the peer is the expected server:
-- the user and the path bound, the process read at kernel, and principal, program and process
-- instance agreeing with what was expected.
pub server_check_iff :
    (f : Files) (e : ServerExpectation) (recheck : Option Err) (p : Peer)
    → (check f e recheck p ≡ none) ↔ ((recheck ≡ none) × IsExpected f e p)
unfolding check check_values at_least
server_check_iff f e (some x) p = (λ h. cc, λ h. cc (h.0))
server_check_iff f e none p = (
  λ h. (
    refl,
    record {
      user_proof = ground arith;
      process_proof = ground arith;
      path_proof = ground arith;
      principal = ground arith;
      program = ground arith;
      instance_ = ground arith;
    },
  ),
  λ (_, k).
      ground
        (arith, k.user_proof, k.process_proof, k.path_proof, k.principal, k.program, k.instance_),
)

locked_trust :
    (f : Files) (c : ServerConn) (context recheck : Option Err) (e : ServerExpectation) (p : Peer)
    → c.expected ≡ some (e, p)
    → check_locked f c context recheck ≡ none
    → (c.closed ≡ false) × (context ≡ none) × (check f e recheck p ≡ none)
unfolding check_locked
locked_trust f c context recheck e p h k = ground arith

moment_trust :
    (f : Files) (c : ServerConn) (m : Moment) (e : ServerExpectation) (p : Peer)
    → c.expected ≡ some (e, p)
    → at_moment f c m ≡ none
    → (c.closed ≡ false)
      × (m.closed ≡ false)
      × (m.context ≡ none)
      × (m.recheck ≡ none)
      × IsExpected f e p
moment_trust f c m e p h k =
    let (open_, running, good) =
      locked_trust f (record c { closed = c.closed || m.closed }) m.context m.recheck e p h k in
    let (found, expected) = (server_check_iff f e m.recheck p).0 good in
    (ground arith, ground arith, running, found, expected)

read_checked :
    (f : Files) (c : ServerConn) (before after : Moment) (bytes : List ℕ) (x : Option Err)
    → (read f c before after bytes x).0 ≢ []
    → (at_moment f c before ≡ none) × (at_moment f c after ≡ none)
unfolding read
read_checked f c before after bytes x h = elim (Option-cases (at_moment f c before)) [
  | inr (y, bad) ↦ absurd (h (ground arith))
  | inl good ↦ elim (Option-cases (at_moment f c after)) [
    | inr (y, bad) ↦ absurd (h (ground arith))
    | inl fine ↦ (good, fine)
  ]
]

-- A client that expects a server gets a byte out of a read only if, both before and after the
-- connection's own read, the connection was open, the call's context had not ended, and the peer
-- was the expected server under a recheck that found nothing.
pub read_trusted :
    (f : Files) (c : ServerConn) (before after : Moment) (bytes : List ℕ) (x : Option Err)
    (e : ServerExpectation) (p : Peer)
    → c.expected ≡ some (e, p)
    → (read f c before after bytes x).0 ≢ []
    → (c.closed ≡ false)
      × (before.closed ≡ false)
      × (after.closed ≡ false)
      × (before.context ≡ none)
      × (after.context ≡ none)
      × (before.recheck ≡ none)
      × (after.recheck ≡ none)
      × IsExpected f e p
read_trusted f c before after bytes x e p h some_bytes =
    let (first, second) = read_checked f c before after bytes x some_bytes in
    let b = moment_trust f c before e p h first in
    let a = moment_trust f c after e p h second in (b.0, b.1, a.1, b.2, a.2, b.3, a.3, b.4)
