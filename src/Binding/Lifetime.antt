-- ===== src/Binding/Lifetime.antt =====
-- The platform handle's life: used only while it is held, released once, by the owner alone.
use abstraction_identity.Base.{
  ◌≡◌, ◌≢◌, ◌↔◌, refl, ◌∙◌, Bool, true, false, List, [], ◌∷◌, ◌++◌, Option, none, some, arith,
}
use abstraction_identity.Errors.{Err, sentinel, net_closed}
use abstraction_identity.Peer.{Need}
use abstraction_identity.Peer.Policy.{Meets, check_iff}
use abstraction_identity.Binding.{
  InnerCall, rechecked, queried, released, BindingState, owner, shared, Binding, recheck, opened,
  check_binding, Op, recheck_op, alive_op, close_op, step, run, share, close,
}

-- The calls of a handle whose life is in order: any uses, then at most one release, then nothing.
abbrev pub InOrder : Bool → List InnerCall → Type 0
InOrder closed [] = closed ≡ false
InOrder closed (rechecked ∷ cs) = InOrder closed cs
InOrder closed (queried ∷ cs) = InOrder closed cs
InOrder closed (released ∷ cs) = (closed ≡ true) × (cs ≡ [])

InOrder-use :
    (cs : List InnerCall) (c : InnerCall)
    → c ≢ released
    → InOrder false cs
    → InOrder false (cs ++ (c ∷ []))
InOrder-use [] rechecked h o = refl
InOrder-use [] queried h o = refl
InOrder-use [] released h o = absurd (h refl)
InOrder-use (rechecked ∷ cs) c h o = InOrder-use cs c h o
InOrder-use (queried ∷ cs) c h o = InOrder-use cs c h o
InOrder-use (released ∷ cs) c h o = cc

InOrder-release : (cs : List InnerCall) → InOrder false cs → InOrder true (cs ++ (released ∷ []))
InOrder-release [] o = (refl, refl)
InOrder-release (rechecked ∷ cs) o = InOrder-release cs o
InOrder-release (queried ∷ cs) o = InOrder-release cs o
InOrder-release (released ∷ cs) o = cc

abbrev pub IsOrderly : BindingState → Type 0
IsOrderly s = InOrder s.closed s.calls

abbrev state : Bool → Option Err → List InnerCall → BindingState
state closed e calls = record { closed = closed; close_err = e; calls = calls }

step_lem :
    (closed : Bool) (e : Option Err) (calls : List InnerCall) (o : Op)
    → InOrder closed calls
    → IsOrderly (step (state closed e calls) o)
unfolding step
step_lem true e calls (recheck_op v a) h = h
step_lem true e calls (alive_op v a) h = h
step_lem true e calls (close_op owner a) h = h
step_lem true e calls (close_op shared a) h = h
step_lem false e calls (recheck_op v a) h = InOrder-use calls rechecked (λ q. cc) h
step_lem false e calls (alive_op v a) h = InOrder-use calls queried (λ q. cc) h
step_lem false e calls (close_op owner a) h = InOrder-release calls h
step_lem false e calls (close_op shared a) h = h

pub step-IsOrderly : (s : BindingState) (o : Op) → IsOrderly s → IsOrderly (step s o)
step-IsOrderly s o h = step_lem s.closed s.close_err s.calls o h

run-IsOrderly : (os : List Op) (s : BindingState) → IsOrderly s → IsOrderly (run s os)
unfolding run
run-IsOrderly [] s h = h
run-IsOrderly (o ∷ os) s h = run-IsOrderly os (step s o) (step-IsOrderly s o h)

-- Whatever is done through the owner and the shared views of a new binding, in any order, the
-- platform handle is never asked after its release and is released at most once; it has been
-- released exactly when the binding is closed.
pub handle_in_order : (os : List Op) → IsOrderly (run opened os)
handle_in_order os = run-IsOrderly os opened refl

step_closed : (s : BindingState) (o : Op) → s.closed ≡ true → step s o ≡ s
unfolding step
step_closed s (recheck_op v a) h = ground arith
step_closed s (alive_op v a) h = ground arith
step_closed s (close_op owner a) h = ground arith
step_closed s (close_op shared a) h = refl

run_closed : (os : List Op) (s : BindingState) → s.closed ≡ true → run s os ≡ s
unfolding run
run_closed [] s h = refl
run_closed (o ∷ os) s h = rw (step_closed s o h) (run_closed os s h)

close_owner :
    (b : Binding) (s : BindingState) (answer : Option Err)
    → b.inner ≡ owner
    → s.closed ≡ false
    → ((close b s answer).0.closed ≡ true) × ((close b s answer).0.close_err ≡ answer)
unfolding close
close_owner b s answer o h = ground arith

closed_answers :
    (b : Binding) (t : BindingState) (later again : Option Err)
    → b.inner ≡ owner
    → t.closed ≡ true
    → ((recheck t later).1 ≡ some (sentinel net_closed)) × ((close b t again).1 ≡ t.close_err)
unfolding recheck close
closed_answers b t later again o h = (ground arith, ground arith)

-- Once the owner has closed an open binding, whatever is done afterwards through any view: every
-- recheck is refused with net.ErrClosed, and every further Close by the owner gives the first
-- Close's error again.
pub closed_for_good :
    (b : Binding) (s : BindingState) (answer later again : Option Err) (os : List Op)
    → b.inner ≡ owner
    → s.closed ≡ false
    → let t = run (close b s answer).0 os in
      ((recheck t later).1 ≡ some (sentinel net_closed)) × ((close b t again).1 ≡ answer)
closed_for_good b s answer later again os o h =
    let shut = close_owner b s answer o h in
    let k = closed_answers b (close b s answer).0 later again o shut.0 in
    rw (run_closed os (close b s answer).0 shut.0) (k.0, k.1 ∙ shut.1)

-- Closing a shared view leaves the binding as it was, reaches no platform handle and reports no
-- error.
pub close-share :
    (b : Binding) (s : BindingState) (answer : Option Err) → close (share b) s answer ≡ (s, none)
unfolding close share
close-share b s answer = refl

-- A binding passes a policy exactly when it is open, the platform's recheck finds nothing against
-- it, and the captured peer meets the policy in every attribute.
pub check_binding_iff :
    (b : Binding) (s : BindingState) (n : Need) (answer : Option Err)
    → ((check_binding b s n answer).1 ≡ none)
      ↔ ((s.closed ≡ false) × (answer ≡ none) × Meets b.peer n)
unfolding check_binding
check_binding_iff b s n answer = (
  λ h. (ground arith, ground arith, (check_iff b.peer n).0 (ground arith)),
  λ h. ground (arith, (check_iff b.peer n).1 h.2),
)
