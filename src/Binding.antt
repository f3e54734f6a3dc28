-- ===== src/Binding.antt =====
-- bind.go: a binding keeps the peer captured at accept, and the platform handle that rechecks it.
-- Views of one binding (the owner's and those that Shared gives out) reach one shared state under
-- its lock, so a run is a sequence of whole operations.
pub mod Lifetime
use abstraction_identity.Base.{Bool, true, false, List, [], ◌∷◌, ◌++◌, Option, none, some}
use abstraction_identity.Errors.{Err, sentinel, net_closed}
use abstraction_identity.Peer.Types.{Time, Peer}
use abstraction_identity.Peer.{Need, check}

-- A call that reached the platform's `binder`.
pub data InnerCall : Type 0 where
  rechecked queried released : InnerCall

-- `bindingState`; `calls` are the calls made of the platform handle so far, in order.
pub record BindingState : Type 0 where
  pub closed : Bool
  pub close_err : Option Err
  pub calls : List InnerCall

-- `Binding` itself, or a view that `Shared` made of it.
pub data View : Type 0 where
  owner shared : View

-- `Binding`: the capture, when it was taken, and the way to the state.
pub record Binding : Type 0 where
  pub peer : Peer
  pub bound_at : Time
  pub inner : View

-- `bindingState.recheck`, where the platform would answer `answer`.
unfoldable pub recheck : BindingState → Option Err → BindingState × Option Err
recheck s answer = elim s.closed [
  | true ↦ (s, some (sentinel net_closed))
  | false ↦ (record s { calls = s.calls ++ (rechecked ∷ []) }, answer)
]

-- `bindingState.alive`
unfoldable pub alive : BindingState → Bool × Option Err → BindingState × (Bool × Option Err)
alive s answer = elim s.closed [
  | true ↦ (s, (false, some (sentinel net_closed)))
  | false ↦ (record s { calls = s.calls ++ (queried ∷ []) }, answer)
]

-- `bindingState.release`
unfoldable pub release_state : BindingState → Option Err → BindingState × Option Err
release_state s answer = elim s.closed [
  | true ↦ (s, s.close_err)
  | false ↦
      (record s { closed = true; close_err = answer; calls = s.calls ++ (released ∷ []) }, answer)
]

-- `release` through a view: `sharedBinder.release` does nothing.
unfoldable pub release : View → BindingState → Option Err → BindingState × Option Err
unfolding release_state
release owner s answer = release_state s answer
release shared s answer = (s, none)

-- What `Bind` puts behind a new binding.
abbrev pub opened : BindingState
opened = record { closed = false; close_err = none; calls = [] }

-- `Binding.Shared`
unfoldable pub share : Binding → Binding
share b = record b { inner = shared }

pub data Answer : Type 0 where
  answered : Peer → Answer
  refused : Err → Answer

-- `Binding.Peer`
unfoldable pub peer_of : Binding → BindingState → Option Err → BindingState × Answer
unfolding recheck
peer_of b s answer =
    let r = recheck s answer in (r.0, elim r.1 [ some e ↦ refused e | none ↦ answered b.peer ])

-- `Binding.Check`
unfoldable pub check_binding :
    Binding → BindingState → Need → Option Err → BindingState × Option Err
unfolding peer_of
check_binding b s n answer =
    let r = peer_of b s answer in (r.0, elim r.1 [ refused e ↦ some e | answered p ↦ check p n ])

-- `Binding.Close`
unfoldable pub close : Binding → BindingState → Option Err → BindingState × Option Err
unfolding release
close b s answer = release b.inner s answer

-- `Binding.EvidenceValidUntil`
unfoldable pub evidence_valid_until : Binding → Time
evidence_valid_until b = b.peer.evidence_valid_until

-- An operation through some view, with what the platform would answer.
pub data Op : Type 0 where
  recheck_op : View → Option Err → Op
  alive_op : View → Bool × Option Err → Op
  close_op : View → Option Err → Op

unfoldable pub step : BindingState → Op → BindingState
unfolding recheck alive release
step s (recheck_op v a) = (recheck s a).0
step s (alive_op v a) = (alive s a).0
step s (close_op v a) = (release v s a).0

unfoldable pub run : BindingState → List Op → BindingState
unfolding step
run s [] = s
run s (o ∷ os) = run (step s o) os
