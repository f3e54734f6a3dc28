-- ===== src/Listen/Receive/Refused.antt =====
-- A caller that the policy refuses is told so: what ReceiveFramed sends it, and what its client
-- makes of that.
use abstraction_identity.Base.{
  ℕ, ◌≤◌, ◌≡◌, refl, sym, ap, ◌∙◌, Bool, true, false, List, [], ◌∷◌, ◌++◌, ◌==◌, none, some, arith,
}
use mathlib.Core.Path.{subst}
use mathlib.Core.List.{append-nil}
use abstraction_identity.Proof.{ProofError}
use abstraction_identity.Errors.{Err, proofs, join, is, not_proven, io_timeout, refusal}
use abstraction_identity.Peer.{Need, check}
use abstraction_identity.Binding.{Binding, BindingState, check_binding}
use abstraction_identity.Listen.Wire.{
  session_closing, session_unsupported, has_session, masked, put_uint32,
}
use abstraction_identity.Listen.Stream.{Input, Writer, read_full}
use abstraction_identity.Listen.Refusal.{proof_refusal_bytes, refusal_tokens}
use abstraction_identity.Listen.Refusal.Tokens.{
  disclosed, parse_tokens-refusal, read_proof_refusal-tokens,
}
use abstraction_identity.Listen.Frame.{no_frame, read_frame, wait_frame_eof}
use abstraction_identity.Listen.Frame.RoundTrip.{read_full-append, read_frame-refusal}
use abstraction_identity.Listen.Client.{
  word, read_uint32, Attempt, ends, closed, Request, flags_of, write_all, finish, declined,
  single_on_session, opened, fresh_turn, turn, after_turn, session_loop, session_call,
}
use abstraction_identity.Listen.Client.Reply.{read_uint32-put}
use abstraction_identity.Listen.Receive.{
  bound, bind_check, Arrival, rejected, frame_error, fail, admit_length, admit_header,
  receive_framed,
}

join-not_proven :
    (es : List ProofError) (x : Err)
    → join es ≡ some x
    → (is x not_proven ≡ true) × (is x io_timeout ≡ false)
unfolding is
join-not_proven [] x h = cc
join-not_proven (e ∷ es) x h =
    let same : proofs (e ∷ es) ≡ x = cc in
    subst (λ y. (is y not_proven ≡ true) × (is y io_timeout ≡ false)) same (refl, refl)

check-not_proven :
    (b : Binding) (need : Need) (x : Err)
    → check b.peer need ≡ some x
    → (is x not_proven ≡ true) × (is x io_timeout ≡ false)
unfolding check
check-not_proven b need x h = join-not_proven _ x h

-- A caller that asks for a session, whose request fits and whose identity is captured, but does
-- not meet the policy.
pub record IsUnmet (a : Arrival) (need : Need) (limit : ℕ) (err : Err) : Type 0 where
  pub started : a.context_before ≡ none
  pub running : a.context_failed ≡ none
  pub timed : a.has_deadline ≡ true
  pub deadline : a.deadline ≡ none
  pub header : ℕ
  pub rest : Input
  pub read : read_uint32 a.input ≡ word header rest
  pub asks : has_session header ≡ true
  pub begins : (header == session_closing) ≡ false
  pub told : a.answer ≡ none
  pub fits : masked header ≤ limit
  pub open_ : a.closed ≡ false
  pub binding : Binding
  pub state : BindingState
  pub bound_to : a.bind ≡ bound binding state none
  pub binding_open : state.closed ≡ false
  pub unmet : check binding.peer need ≡ some err

bind_check-unmet :
    (b : Binding) (s : BindingState) (need : Need) (err : Err)
    → s.closed ≡ false
    → check b.peer need ≡ some err
    → bind_check (bound b s none) need ≡ some err
unfolding bind_check check_binding
bind_check-unmet b s need err h k = ground arith

module _ (a : Arrival) (need : Need) (limit : ℕ) (err : Err) (u : IsUnmet a need limit err) where
  fail-unmet :
      (sent : List ℕ)
      → fail a need limit true sent err ≡ rejected err (sent ++ proof_refusal_bytes err)
  unfolding fail frame_error
  fail-unmet sent =
      let k = check-not_proven u.binding need err u.unmet in rw u.running (ground (arith, k.0, k.1))

  length-unmet :
      (sent : List ℕ)
      → admit_length a need limit sent (masked u.header) u.rest
        ≡ rejected err (sent ++ proof_refusal_bytes err)
  unfolding admit_length
  length-unmet sent =
      let k : bind_check a.bind need ≡ some err =
        ap (λ b. bind_check b need) u.bound_to
        ∙ bind_check-unmet u.binding u.state need err u.binding_open u.unmet in
      ground (arith, k, u.fits, u.open_, fail-unmet sent)

  -- ReceiveFramed sends such a caller that sessions are not served here and then the refusal of
  -- its error, nothing else, and reports that error.
  receive_unmet :
      receive_framed a need limit
      ≡ rejected err (put_uint32 session_unsupported ++ proof_refusal_bytes err)
  unfolding receive_framed admit_header
  receive_unmet = ground (
    arith,
    u.started,
    u.timed,
    u.deadline,
    u.read,
    u.asks,
    u.begins,
    u.told,
    length-unmet (put_uint32 session_unsupported),
  )

frame-refusal :
    (err : Err) (e : Err) (limit : ℕ)
    → read_frame (record { pending = proof_refusal_bytes err; ending = e }) limit
      ≡ no_frame (refusal (disclosed err))
frame-refusal err e limit =
    ap (λ t. read_frame (record { pending = t; ending = e }) limit)
      (sym (append-nil (proof_refusal_bytes err)))
    ∙ read_frame-refusal err [] e limit

eof-refusal :
    (err : Err) (e : Err)
    → wait_frame_eof (record { pending = proof_refusal_bytes err; ending = e })
      ≡ some (refusal (disclosed err))
unfolding wait_frame_eof proof_refusal_bytes read_full
eof-refusal err e =
    let (x, y) = refusal_tokens err in
    ap some (
      read_proof_refusal-tokens x y [] e (read_full-append (x ∷ y ∷ []) [] e)
      ∙ parse_tokens-refusal err)

-- The client dialled, could write its header and its body, and reads what the receiver sent.
pub record WroteFresh {S : Type 0} (w : Writer S) (r : Request) (a : Attempt S) (sent : List ℕ)
    (e : Err) : Type 0 where
  pub fresh : a.pooled ≡ false
  pub dialled : a.dial ≡ none
  pub usable : a.use_error ≡ none
  pub header_written : (w.write a.state (put_uint32 (flags_of r))).1 ≡ none
  pub body_written : (write_all w r.body (w.write a.state (put_uint32 (flags_of r))).2).0 ≡ none
  pub reads : a.input ≡ record { pending = sent; ending = e }

module _ {S : Type 0} (w : Writer S) (platform : Err → Bool) (r : Request) (a : Attempt S)
    (err e : Err)
    (wrote : WroteFresh w r a (put_uint32 session_unsupported ++ proof_refusal_bytes err) e) where
  after_header : S
  after_header = (w.write a.state (put_uint32 (flags_of r))).2

  after_body : S
  after_body = (write_all w r.body after_header).1

  single-refused :
      single_on_session w platform r a
        (record { pending = proof_refusal_bytes err; ending = e })
        after_header
      ≡ (some (refusal (disclosed err)), [], after_body)
  unfolding single_on_session after_header after_body
  single-refused =
      ground (arith, wrote.body_written, frame-refusal err e r.limit, eof-refusal err e)

  turn-refused :
      turn w platform r a
      ≡ ends (some (refusal (disclosed err))) [] true (finish w platform r a false) after_body
  unfolding turn fresh_turn opened declined after_header
  turn-refused =
      let k = read_uint32-put session_unsupported (proof_refusal_bytes err) e (omega arith) in
      ground (
        arith, k, single-refused, wrote.fresh, wrote.dialled, wrote.usable, wrote.header_written,
        wrote.reads,
      )

-- Receiver and client together: a caller that asks for a session, fits the limit and is bound but
-- does not meet the policy is refused with that error, and its client, which could write its
-- request on the fresh connection of its first round and reads what the receiver sent, returns the
-- refusal that names what may be disclosed of the error, with no reply, after that one round; it
-- marks the endpoint and closes the connection.
pub refused_caller_learns :
    {S : Type 0} (w : Writer S) (platform : Err → Bool) (r : Request) (env : ℕ → Attempt S)
    (a : Arrival) (need : Need) (limit : ℕ) (err e : Err)
    → IsUnmet a need limit err
    → WroteFresh w r (env 0) (put_uint32 session_unsupported ++ proof_refusal_bytes err) e
    → (receive_framed a need limit
        ≡ rejected err (put_uint32 session_unsupported ++ proof_refusal_bytes err))
      × (session_call w platform r env ≡ record {
        error = some (refusal (disclosed err));
        reply = [];
        rounds = 1;
        single = true;
        fate = closed;
      })
unfolding session_call session_loop after_turn finish
refused_caller_learns w platform r env a need limit err e u wrote =
    (receive_unmet a need limit err u, rw (turn-refused w platform r (env 0) err e wrote) refl)
