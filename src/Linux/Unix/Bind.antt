-- ===== src/Linux/Unix/Bind.antt =====
-- bind_linux.go: the binding of an AF_UNIX peer, and its recheck. The texts of errors are left
-- empty.
pub mod Outcomes
use abstraction_identity.Base.{
  ℕ, ◌≡◌, ◌≢◌, ◌⊎◌, inl, inr, refl, sym, Bool, true, false, not, List, [], ◌∷◌, Str, str_eq,
  str_eq→eq, eq→str_eq, if◌then◌else◌, Option, none, some, ℤ, negsuc, suc, arith, Bool-cases,
  Option-cases,
}
use abstraction_identity.Errors.{
  Err, Sentinel, sentinel, message, no_binding, peer_gone, peer_moved, unsupported_conn,
}
use abstraction_identity.Peer.Types.{Time, Peer}
use abstraction_identity.Linux.Proc.{
  Alive, alive, exited, not_pidfd, mismatch, unreadable, pidfd_alive, strip_deleted,
}
use abstraction_identity.Linux.Unix.{
  Answer, answer, failed, Ucred, Handle, require_accepted, Identified, refused, identified,
  of_handle,
}
use abstraction_identity.Linux.Unix.Evidence.{Answer-cases, IsEvidence, of_handle-IsEvidence}

-- `linuxBinding`: what was pinned. A pidfd below 0 is `none`; `closed` are the descriptors that were
-- closed, the latest first.
pub record Pinned : Type 0 where
  pub pidfd : Option ℕ
  pub pid : ℤ
  pub exe : Str
  pub closed : List ℕ

-- `release`
unfoldable pub release : Pinned → Pinned
release b = elim b.pidfd [ none ↦ b | some fd ↦ record b { pidfd = none; closed = fd ∷ b.closed } ]

-- What `recheck` sees: the fdinfo of the pidfd, and the link of the image.
pub record Sight : Type 0 where
  pub fdinfo : Option Str
  pub exe : Answer Str

abbrev pub kind : Sentinel → Err
kind s = message (sentinel s) []

unfoldable pub check_image : Pinned → Answer Str → Option Err
check_image b (failed e) = none
check_image b (answer link) =
    if str_eq (strip_deleted link).0 b.exe then none else some (kind peer_moved)

-- `recheck`: an exited peer contradicts nothing.
unfoldable pub recheck : Pinned → Sight → Option Err
recheck b s = elim (pidfd_alive s.fdinfo b.pid) [ alive ↦ check_image b s.exe | _ ↦ none ]

-- The result of `bindHandle`: a binding with its capture, or an error with the descriptors that were
-- opened and those that were closed.
pub data Bound : Type 0 where
  bound : Pinned → Peer → Bound
  unbound : Err → (opened closed : List ℕ) → Bound

abbrev descriptors : Option ℕ → List ℕ
descriptors none = []
descriptors (some fd) = fd ∷ []

-- `b.release()` on a path that fails.
unfoldable pub drop_pin : Pinned → Err → Bound
drop_pin b e = unbound e (descriptors b.pidfd) (release b).closed

-- `of_handle` reads again, as `again` answers.
unfoldable pub capture : Pinned → (again : Handle) → (connected_at : Time) → Bound
capture b again t = elim (of_handle again t) [ refused e ↦ drop_pin b e | identified p ↦ bound b p ]

unfoldable pub bind_image : Pinned → Answer Str → (again : Handle) → (connected_at : Time) → Bound
bind_image b (failed e) again t = drop_pin b (kind peer_gone)
bind_image b (answer link) again t = capture (record b { exe = (strip_deleted link).0 }) again t

unfoldable pub bind_alive :
    Pinned → Alive → Handle → (again : Handle) → (connected_at : Time) → Bound
bind_alive b alive h again t = bind_image b h.exe again t
bind_alive b exited h again t = drop_pin b (sentinel peer_gone)
bind_alive b other h again t = drop_pin b (kind no_binding)

unfoldable pub bind_ucred :
    Pinned → Answer Ucred → Handle → (again : Handle) → (connected_at : Time) → Bound
bind_ucred b (failed e) h again t = drop_pin b (kind unsupported_conn)
bind_ucred b (answer c) h again t =
    bind_alive (record b { pid = c.pid }) (pidfd_alive h.fdinfo c.pid) h again t

unfoldable pub bind_pidfd : Handle → (again : Handle) → (connected_at : Time) → Bound
bind_pidfd h again t = elim h.pidfd [
  | failed e ↦ unbound (kind no_binding) [] []
  | answer fd ↦
      bind_ucred (record { pidfd = some fd; pid = negsuc 0; exe = []; closed = [] }) h.ucred h again
        t
]

-- `bindHandle`; `supported` is what `pidfdSupport` found.
unfoldable pub bind_handle :
    (supported : Bool) → Handle → (again : Handle) → (connected_at : Time) → Bound
bind_handle supported h again t = elim (require_accepted h) [
  | some e ↦ unbound e [] []
  | none ↦ if supported then bind_pidfd h again t else unbound (kind no_binding) [] []
]
