-- ===== src/Listen/FramedCall/Once.antt =====
-- A framed call replies once, closes its connection once, and keeps its binding's life in order.
use abstraction_identity.Base.{
  ℕ, ◌≤◌, ◌≡◌, inl, inr, refl, sym, Bool, true, false, List, [], ◌∷◌, ltb, if_rule, length, Option,
  none, some, arith, Option-cases,
}
use mathlib.Core.Path.{subst}
use abstraction_identity.Errors.{Err}
use abstraction_identity.Binding.{
  Binding, BindingState, Answer, answered, refused, View, owner, shared, opened, recheck_op,
  close_op, peer_of,
}
use abstraction_identity.Binding
use abstraction_identity.Binding.Lifetime.{IsOrderly, step-IsOrderly}
use abstraction_identity.Listen.Stream.{Writer}
use abstraction_identity.Listen.FramedCall.{
  Watch, unwatched, unwatching, watching, FramedCall, ReplyWorld, close, peer, wait_from,
  wait_context, finish_from, finish_watching, put_reply, checked_reply, watched_reply, reply, Op,
  replies, rechecks, waits, closes_, expires, step, run,
}

peer_of-IsOrderly :
    (b : Binding) (s : BindingState) (answer : Option Err)
    → IsOrderly s
    → IsOrderly (peer_of b s answer).0
unfolding peer_of Binding.step
peer_of-IsOrderly b s answer h = step-IsOrderly s (recheck_op b.inner answer) h

Binding-close-IsOrderly :
    (b : Binding) (s : BindingState) (answer : Option Err)
    → IsOrderly s
    → IsOrderly (Binding.close b s answer).0
unfolding Binding.close Binding.step
Binding-close-IsOrderly b s answer h = step-IsOrderly s (close_op b.inner answer) h

-- How often a call has closed its connection.
abbrev pub times_closed : Bool → ℕ
times_closed true = 1
times_closed false = 0

-- The connection is closed as often as the call, the binding's life is in order, and `limit`
-- replies were written at most.
pub record IsSound {S : Type 0} (limit : ℕ) (k : FramedCall S) : Type 0 where
  pub written : k.writes ≤ limit
  pub shut : k.closes ≡ times_closed k.closed
  pub order : IsOrderly k.bound

-- How many replies may have been written.
abbrev pub allowed : Bool → ℕ
allowed true = 1
allowed false = 0

module _ {S : Type 0} (w : Writer S) where
  close-IsSound :
      (n : ℕ) (k : FramedCall S) (answer : Option Err) → IsSound n k → IsSound n (close w k answer)
  unfolding close
  close-IsSound n k answer i =
      if_rule (IsSound n) k.closed k _ (λ _. i)
        (λ open_. record {
          written = i.written;
          shut = ground (arith, i.shut);
          order = Binding-close-IsOrderly k.binding k.bound answer i.order;
        })

  close-replied : (k : FramedCall S) (answer : Option Err) → (close w k answer).replied ≡ k.replied
  unfolding close
  close-replied k answer = ground arith

  peer-IsSound :
      (n : ℕ) (k : FramedCall S) (answer : Option Err) → IsSound n k → IsSound n (peer w k answer).0
  unfolding peer
  peer-IsSound n k answer i =
      if_rule (λ (r : FramedCall S × Answer). IsSound n r.0) k.closed _ _ (λ _. i)
        (λ open_. elim (Option-cases k.context) [
          | inl ok ↦ rw ok (record {
            written = i.written;
            shut = i.shut;
            order = peer_of-IsOrderly k.binding k.bound answer i.order;
          })
          | inr (e, bad) ↦ rw bad i
        ])

  finish-IsSound :
      (n : ℕ) (m : Watch) (k : FramedCall S) (v : ReplyWorld)
      → IsSound n k
      → IsSound n (finish_from w m k v).0
  unfolding finish_from
  finish-IsSound n unwatched k v i = record { written = i.written; shut = i.shut; order = i.order }
  finish-IsSound n unwatching k v i = i
  finish-IsSound n watching k v i = elim (Option-cases v.interrupt) [
    | inr (e, bad) ↦ rw bad (close-IsSound n k v.close_answer i)
    | inl ok ↦ elim (Option-cases v.restore) [
      | inr (e, bad) ↦ rw (ok, bad) i
      | inl fine ↦ rw (ok, fine) i
    ]
  ]

  put-IsSound :
      (k : FramedCall S) (v : ReplyWorld) (frame : List ℕ)
      → IsSound 0 k
      → IsSound 1 (put_reply w k v frame)
  unfolding put_reply
  put-IsSound k v frame i =
      if_rule (IsSound 1) (ltb k.limit (length frame)) _ _
        (λ _. record { written = omega (arith, i.written); shut = i.shut; order = i.order })
        (λ _. record { written = omega (arith, i.written); shut = i.shut; order = i.order })

  checked-IsSound :
      (x : FramedCall S × Answer) (v : ReplyWorld) (frame : List ℕ)
      → IsSound 0 x.0
      → IsSound 1 (checked_reply w x v frame)
  unfolding checked_reply
  checked-IsSound (k, refused e) v frame i = record {
    written = omega (arith, i.written);
    shut = i.shut;
    order = i.order;
  }
  checked-IsSound (k, answered p) v frame i = put-IsSound k v frame i

  watched-IsSound :
      (x : FramedCall S × Option Err) (v : ReplyWorld) (frame : List ℕ)
      → IsSound 0 x.0
      → IsSound 1 (watched_reply w x v frame)
  unfolding watched_reply
  watched-IsSound (k, some e) v frame i = record {
    written = omega (arith, i.written);
    shut = i.shut;
    order = i.order;
  }
  watched-IsSound (k, none) v frame i =
      checked-IsSound (peer w k v.recheck) v frame (peer-IsSound 0 k v.recheck i)

  -- A call that has replied has written one reply at most, and one that has not, none.
  abbrev pub IsOnce : FramedCall S → Type 0
  IsOnce k = IsSound (allowed k.replied) k

  reply-IsOnce :
      (k : FramedCall S) (v : ReplyWorld) (frame : List ℕ) → IsOnce k → IsOnce (reply w k v frame)
  unfolding reply finish_watching
  reply-IsOnce k v frame i =
      if_rule IsOnce k.replied _ _ (λ _. i)
        (λ fresh.
          let before : IsSound 0 k = subst (λ b. IsSound (allowed b) k) fresh i in
          let done =
            watched-IsSound (finish_watching w k v) v frame (finish-IsSound 0 k.watch k v before) in
          record { written = done.written; shut = done.shut; order = done.order })

  peer-replied : (k : FramedCall S) (answer : Option Err) → (peer w k answer).0.replied ≡ k.replied
  unfolding peer
  peer-replied k answer = ground arith

  wait-IsOnce : (m : Watch) (k : FramedCall S) → IsOnce k → IsOnce (wait_from w m k)
  unfolding wait_from
  wait-IsOnce unwatched k i = record { written = i.written; shut = i.shut; order = i.order }
  wait-IsOnce unwatching k i = i
  wait-IsOnce watching k i = i

  step-IsOnce : (k : FramedCall S) (o : Op) → IsOnce k → IsOnce (step w k o)
  unfolding step wait_context
  step-IsOnce k (replies v frame) i = reply-IsOnce k v frame i
  step-IsOnce k (rechecks answer) i =
      subst (λ b. IsSound (allowed b) (peer w k answer).0) (sym (peer-replied k answer))
        (peer-IsSound (allowed k.replied) k answer i)
  step-IsOnce k (closes_ answer) i =
      subst (λ b. IsSound (allowed b) (close w k answer)) (sym (close-replied k answer))
        (close-IsSound (allowed k.replied) k answer i)
  step-IsOnce k (expires e) i = record { written = i.written; shut = i.shut; order = i.order }
  step-IsOnce k waits i = wait-IsOnce k.watch k i

  run-IsOnce : (os : List Op) (k : FramedCall S) → IsOnce k → IsOnce (run w k os)
  unfolding run
  run-IsOnce [] k i = i
  run-IsOnce (o ∷ os) k i = run-IsOnce os (step w k o) (step-IsOnce k o i)

-- A call as ReceiveFramed hands it out.
abbrev pub accepted_call : {S : Type 0} → ℕ → Binding → S → FramedCall S
accepted_call limit b s = record {
  limit = limit;
  binding = b;
  bound = opened;
  context = none;
  closed = false;
  replied = false;
  reply_error = none;
  watch = unwatched;
  writer = s;
  writes = 0;
  closes = 0;
}

-- Whatever a handler does with a call, in any order, and whenever its context ends: at most one
-- reply is ever written, and none before Reply was called; the connection is closed once if the
-- call is closed and else never; and the binding's platform handle is never asked after its
-- release and is released at most once.
pub framed_call_once :
    {S : Type 0} (w : Writer S) (limit : ℕ) (b : Binding) (s : S) (os : List Op)
    → let k = run w (accepted_call limit b s) os in
      (k.writes ≤ allowed k.replied) × (k.closes ≡ times_closed k.closed) × IsOrderly k.bound
framed_call_once w limit b s os =
    let i =
      run-IsOnce w os (accepted_call limit b s)
        (record { written = omega arith; shut = refl; order = refl }) in
    (i.written, i.shut, i.order)
