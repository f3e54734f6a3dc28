-- ===== src/Listen/Client/Reply.antt =====
-- What a client that reuses a pooled connection receives of a server's session call.
use abstraction_identity.Base.{
  ℕ, ◌+◌, ◌≤◌, ◌<◌, ◌≡◌, refl, sym, ap, ◌∙◌, Bool, true, false, List, [], ◌++◌, if◌then◌else◌,
  length, Option, none, arith, ◌⊎◌, inl, inr, Bool-cases, if_rule, not, ◌&&◌,
}
use mathlib.Core.List.{append-nil}
use abstraction_identity.Errors.{Err}
use abstraction_identity.Listen.Wire.{
  length_mask, session_flag, with_session, put_uint32, uint32_put,
}
use abstraction_identity.Listen.Stream.{Writer}
use abstraction_identity.Listen.Frame.{frame, read_frame_body, write_headed_count}
use abstraction_identity.Listen.Frame.RoundTrip.{read_full-append, read_body-append}
use abstraction_identity.Listen.Session.Call.{Call, new_call, close, reusable}
use abstraction_identity.Listen.Session.Call.Exchange.{
  Use, use_all, Completed, completion, response, exchange_in_step,
}
use abstraction_identity.Listen.Client.{
  word, read_uint32, Attempt, Fate, closed, put_back, Turn, ends, Request, flags_of, finish,
  take_body, answered, pooled_turn, turn,
}
use abstraction_identity.Listen.Pool.{Pooled, pool_per_endpoint}
use abstraction_identity.Listen.Pool.Bounds.{FirstFresh, PutResult, put_first}

-- A word that was written is read back, and what follows it stays.
pub read_uint32-put :
    (v : ℕ) (rest : List ℕ) (e : Err)
    → v < 4294967296
    → read_uint32 (record { pending = put_uint32 v ++ rest; ending = e })
      ≡ word v (record { pending = rest; ending = e })
unfolding read_uint32
read_uint32-put v rest e h =
    rw (read_full-append (put_uint32 v) rest e, uint32_put v (omega arith)) refl

-- What becomes of a connection that may be kept: where the call's watch was detached in time and its
-- context has not ended, it goes back to the pool as `PutResult` says, and it is closed otherwise.
pub data Kept {S : Type 0} (a : Attempt S) : Fate → Type 0 where
  pools :
      {r : List Pooled × List Pooled}
      → a.stop ≡ true
      → a.ended_at_finish ≡ false
      → PutResult
          (FirstFresh a.finished)
          a.finished
          (record { conn = a.conn; since = a.finished })
          a.idle
          r
      → Kept a (put_back r)
  drops : (a.stop ≡ false) ⊎ (a.ended_at_finish ≡ true) → Kept a closed

finish-Kept :
    {S : Type 0} (w : Writer S) (platform : Err → Bool) (r : Request) (a : Attempt S)
    → length a.idle ≤ pool_per_endpoint
    → Kept a (finish w platform r a true)
unfolding finish
finish-Kept w platform r a few =
    if_rule (Kept a) (a.stop && not a.ended_at_finish) _ _
      (λ on.
        pools (ground (arith, on)) (ground (arith, on)) (put_first a.conn a.finished a.idle few))
      (λ off. drops (stands_against off))
  where
    stands_against :
        (a.stop && not a.ended_at_finish) ≡ false → (a.stop ≡ false) ⊎ (a.ended_at_finish ≡ true)
    stands_against off = elim (Bool-cases a.stop) [
      | inr h ↦ inl h
      | inl h ↦ inr (ground (arith, h, off))
    ]

-- What the client's call makes of the answer: the reply, and the connection put back if nothing
-- stands against it.
pub record Received {S : Type 0} (r : Request) (a : Attempt S) (sent : List ℕ) (t : Turn S)
    : Type 0 where
  pub reply : List ℕ
  pub state : S
  pub fate : Fate
  pub returned : t ≡ ends none reply false fate state
  pub on_wire :
      sent ≡ put_uint32 (if r.one_way then session_flag else with_session (length reply)) ++ reply
  pub connection : Kept a fate

module _ {S : Type 0} (w : Writer S) (platform : Err → Bool) (r : Request) (a : Attempt S) (s : S)
    (e : Err) where
  answered-completion :
      r.one_way ≡ true
      → answered w platform r a
          (read_uint32 (record { pending = put_uint32 session_flag; ending = e }))
          s
        ≡ ends none [] false (finish w platform r a true) s
  unfolding answered
  answered-completion one = rw (read_uint32-put session_flag [] e (omega arith)) (ground arith)

  answered-response :
      (body : List ℕ)
      → r.one_way ≡ false
      → length body ≤ r.limit
      → r.limit ≤ length_mask
      → answered w platform r a
          (read_uint32
            (record { pending = put_uint32 (with_session (length body)) ++ body; ending = e }))
          s
        ≡ ends none body false (finish w platform r a true) s
  unfolding answered take_body
  answered-response body two fits small =
      rw (read_uint32-put (with_session (length body)) body e (ground arith))
        (ground (arith, body_read))
    where
      body_read :
          read_frame_body (record { pending = body; ending = e }) (length body) r.limit
          ≡ frame body (record { pending = []; ending = e })
      body_read =
          ap (λ t. read_frame_body (record { pending = t; ending = e }) (length body) r.limit)
            (sym (append-nil body))
          ∙ read_body-append body [] e r.limit fits small

-- The client wrote its request to a pooled connection, and reads what a server sent.
pub record Wrote {S : Type 0} (w : Writer S) (r : Request) (a : Attempt S) (sent : List ℕ) (e : Err)
    : Type 0 where
  pub pooled : a.pooled ≡ true
  pub usable : a.use_error ≡ none
  pub written : (write_headed_count w (flags_of r) r.body a.state).error ≡ none
  pub reads : a.input ≡ record { pending = sent; ending = e }

module _ {S : Type 0} (w : Writer S) (platform : Err → Bool) (r : Request) (a : Attempt S)
    (sent : List ℕ) (e : Err) (wrote : Wrote w r a sent e)
    (few : length a.idle ≤ pool_per_endpoint) where
  wrote_state : S
  wrote_state = (write_headed_count w (flags_of r) r.body a.state).state

  turn-answered :
      turn w platform r a
      ≡ answered w platform r a (read_uint32 (record { pending = sent; ending = e })) wrote_state
  unfolding turn pooled_turn wrote_state
  turn-answered = ground (arith, wrote.pooled, wrote.usable, wrote.written, wrote.reads)

  completed-Received :
      (c : Call)
      → Completed c
      → c.sent ≡ sent
      → c.one_way ≡ r.one_way
      → length sent ≤ 4 + r.limit
      → r.limit ≤ length_mask
      → Received r a sent (turn w platform r a)
  completed-Received c (completion one q) same way fits small =
      let mark : sent ≡ put_uint32 session_flag = sym same ∙ q in
      record {
        reply = [];
        state = wrote_state;
        fate = finish w platform r a true;
        connection = finish-Kept w platform r a few;
        returned =
            turn-answered
            ∙ ap
                (λ t.
                  answered w platform r a (read_uint32 (record { pending = t; ending = e }))
                    wrote_state)
                mark
            ∙ answered-completion w platform r a wrote_state e (sym way ∙ one);
        on_wire = mark ∙ rw (sym way ∙ one) refl;
      }
  completed-Received c (response size body two small_size whole q) same way fits small =
      let mark : sent ≡ put_uint32 (with_session (length body)) ++ body =
        sym same ∙ q ∙ ap (λ n. put_uint32 (with_session n) ++ body) (sym whole) in
      record {
        reply = body;
        state = wrote_state;
        fate = finish w platform r a true;
        connection = finish-Kept w platform r a few;
        returned =
            turn-answered
            ∙ ap
                (λ t.
                  answered w platform r a (read_uint32 (record { pending = t; ending = e }))
                    wrote_state)
                mark
            ∙ answered-response w platform r a wrote_state e body (sym way ∙ two)
                (omega (arith, ap length mark)) small;
        on_wire = mark ∙ rw (sym way ∙ two) refl;
      }

-- Client and server together: a server's call, whatever its handler read and wrote, was closed so
-- that its connection may carry another request, and a client that wrote its request to a pooled
-- connection reads what the call sent, within its limit; at most four connections are pooled when
-- the call ends. Then the client's call returns, without an error, exactly the reply that was sent.
-- If its watch was detached in time and its context has not ended, the connection is put back: it is
-- pooled behind those that stay, while connections that have waited too long are closed, or it is
-- closed because four are pooled already. Otherwise it is closed.
pub exchange_received :
    {S : Type 0} (w : Writer S) (platform : Err → Bool) (r : Request) (a : Attempt S) (e : Err)
    (header : ℕ) (input : List ℕ) (us : List Use) (retiring : Bool) (fault : Option Err)
    → let before = use_all (new_call header input) us in
      let c = close before retiring fault in
      before.closed ≡ false
      → reusable c ≡ true
      → c.one_way ≡ r.one_way
      → length c.sent ≤ 4 + r.limit
      → r.limit ≤ length_mask
      → length a.idle ≤ pool_per_endpoint
      → Wrote w r a c.sent e
      → Received r a c.sent (turn w platform r a)
exchange_received w platform r a e header input us retiring fault open_ again_ way fits small few
      wrote =
    let c = close (use_all (new_call header input) us) retiring fault in
    let done = exchange_in_step header input us retiring fault open_ again_ in
    completed-Received w platform r a c.sent e wrote few c done.2 refl way fits small
