-- ===== src/Errors.antt =====
-- Go's error values: the sentinels of the packages, wrapping by `%w`, `errors.Join`, `errors.Is`
-- and `errors.As`.
use abstraction_identity.Base.{ℕ, Bool, false, ◌||◌, List, [], ◌∷◌, ◌==◌, Option, none, some, Str}
use abstraction_identity.Proof.{Proof, ProofError}

-- The sentinel errors that the modelled code tests for or returns.
pub data Sentinel : Type 0 where
  not_proven remote_peer not_server_end unsupported_conn unimplemented : Sentinel
  no_binding peer_gone peer_pending peer_moved not_helper : Sentinel
  frame_too_large unexpected_response frame_deadline : Sentinel
  session_protocol session_expired no_session : Sentinel
  caller_proof_unmet proof_refusal_protocol server_untrusted message_lifetime : Sentinel
  eof unexpected_eof short_write closed_pipe no_progress net_closed io_timeout : Sentinel
  canceled deadline_exceeded epipe econnreset : Sentinel

abbrev pub tag : Sentinel → ℕ
tag not_proven = 0
tag remote_peer = 1
tag not_server_end = 2
tag unsupported_conn = 3
tag unimplemented = 4
tag no_binding = 5
tag peer_gone = 6
tag peer_pending = 7
tag peer_moved = 8
tag not_helper = 9
tag frame_too_large = 10
tag unexpected_response = 11
tag frame_deadline = 12
tag session_protocol = 13
tag session_expired = 14
tag no_session = 15
tag caller_proof_unmet = 16
tag proof_refusal_protocol = 17
tag server_untrusted = 18
tag message_lifetime = 19
tag eof = 20
tag unexpected_eof = 21
tag short_write = 22
tag closed_pipe = 23
tag no_progress = 24
tag net_closed = 25
tag io_timeout = 26
tag canceled = 27
tag deadline_exceeded = 28
tag epipe = 29
tag econnreset = 30

abbrev pub same : Sentinel → Sentinel → Bool
same a b = tag a == tag b

-- `ProofRefusal` of listen/proof_refusal.go.
pub record ProofRefusal : Type 0 where
  pub attribute : Str
  pub required : Proof

pub data Err : Type 0 where
  sentinel : Sentinel → Err
  -- `errors.New` with a text that nothing tests for
  plain : Str → Err
  -- a `*ProofError`
  proof : ProofError → Err
  -- `errors.Join` of `*ProofError`s
  proofs : List ProofError → Err
  -- a `*ProofRefusal`
  refusal : ProofRefusal → Err
  -- `fmt.Errorf("%w: text", e)`
  message : Err → Str → Err
  -- `fmt.Errorf("%w: %w", e, f)`
  wrap : Err → Err → Err

-- `errors.Join` gives nil when there is nothing to join.
abbrev pub join : List ProofError → Option Err
join [] = none
join (e ∷ es) = some (proofs (e ∷ es))

-- `errors.Is`. Two errors have an `Is` method: a `*ProofError` is ErrNotProven, and a
-- `*ProofRefusal` is ErrCallerProofUnmet or ErrNotProven. ErrPeerPending wraps ErrPeerGone.
unfoldable pub is : Err → Sentinel → Bool
is (sentinel peer_pending) t = same peer_pending t || same peer_gone t
is (sentinel s) t = same s t
is (plain _) t = false
is (proof _) t = same not_proven t
is (proofs []) t = false
is (proofs (_ ∷ _)) t = same not_proven t
is (refusal _) t = same caller_proof_unmet t || same not_proven t
is (message e _) t = is e t
is (wrap e f) t = is e t || is f t

-- `errors.As` for a `*ProofError`: the first in the tree, from left to right.
unfoldable pub as_proof_error : Err → Option ProofError
as_proof_error (sentinel _) = none
as_proof_error (plain _) = none
as_proof_error (proof e) = some e
as_proof_error (proofs []) = none
as_proof_error (proofs (e ∷ _)) = some e
as_proof_error (refusal _) = none
as_proof_error (message e _) = as_proof_error e
as_proof_error (wrap e f) =
    let right = as_proof_error f in elim (as_proof_error e) [ some p ↦ some p | none ↦ right ]

-- `errors.As` for a `*ProofRefusal`.
unfoldable pub as_proof_refusal : Err → Option ProofRefusal
as_proof_refusal (refusal r) = some r
as_proof_refusal (message e _) = as_proof_refusal e
as_proof_refusal (wrap e f) =
    let right = as_proof_refusal f in elim (as_proof_refusal e) [ some r ↦ some r | none ↦ right ]
as_proof_refusal (sentinel _) = none
as_proof_refusal (plain _) = none
as_proof_refusal (proof _) = none
as_proof_refusal (proofs _) = none
