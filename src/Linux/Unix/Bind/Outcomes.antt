-- ===== src/Linux/Unix/Bind/Outcomes.antt =====
-- What binding an AF_UNIX peer comes to, and what its recheck refuses.
use abstraction_identity.Base.{
  ℕ, List, ◌∷◌, some, ℤ, negsuc, ◌≡◌, ◌≢◌, ◌↔◌, ◌⊎◌, inl, inr, refl, Bool, true, false, [], Str,
  str_eq, str_eq→eq, eq→str_eq, Option, none, arith, Bool-cases, Option-cases, if_rule,
}
use mathlib.Core.Path.{subst}
use abstraction_identity.Errors.{Err, sentinel, no_binding, peer_gone, unsupported_conn}
use abstraction_identity.Peer.Types.{Time, Peer}
use abstraction_identity.Linux.Proc.{
  Alive, alive, exited, not_pidfd, mismatch, unreadable, pidfd_alive, strip_deleted,
}
use abstraction_identity.Linux.Unix.{
  Answer, answer, failed, Ucred, Handle, af_unix, require_accepted, Identified, refused, identified,
  of_handle,
}
use abstraction_identity.Linux.Unix.Evidence.{
  Answer-cases, IsEvidence, of_handle-IsEvidence, accepted_unix,
}
use abstraction_identity.Linux.Unix.Bind.{
  Pinned, release, kind, Sight, check_image, recheck, Bound, bound, unbound, drop_pin, capture,
  bind_image, bind_alive, bind_ucred, bind_pidfd, bind_handle,
}

-- What a binding is: the pin of a process that was alive behind the connection's own pidfd, with
-- the image that it ran, and a capture that `ofHandle` made; that pidfd is held, and is not closed.
-- The socket was an AF_UNIX one of which the kernel does not say that it listens, and pidfds are
-- supported.
pub record IsBinding (supported : Bool) (h again : Handle) (b : Pinned) (p : Peer) : Type 0 where
  pub support : supported ≡ true
  pub on_unix : h.domain ≡ answer af_unix
  pub not_listening : (h.listening ≡ answer 0) ⊎ ((e : Str) × (h.listening ≡ failed e))
  pub fd : ℕ
  pub given : h.pidfd ≡ answer fd
  pub held : (b.pidfd ≡ some fd) × (b.closed ≡ [])
  pub cred : Ucred
  pub recorded : h.ucred ≡ answer cred
  pub pid : b.pid ≡ cred.pid
  pub lives : pidfd_alive h.fdinfo cred.pid ≡ alive
  pub link : Str
  pub image : (h.exe ≡ answer link) × (b.exe ≡ (strip_deleted link).0)
  pub evidence : IsEvidence again p

-- Why there is no binding, with the kind of the error and the pidfd that was opened by then.
pub data Refuses (supported : Bool) (h again : Handle) (t : Time) : Err → List ℕ → Type 0 where
  not_accepted : {e : Err} → require_accepted h ≡ some e → Refuses supported h again t e []
  no_support : supported ≡ false → Refuses supported h again t (kind no_binding) []
  no_pidfd : {x : Str} → h.pidfd ≡ failed x → Refuses supported h again t (kind no_binding) []
  no_cred :
      {fd : ℕ} {x : Str}
      → h.pidfd ≡ answer fd
      → h.ucred ≡ failed x
      → Refuses supported h again t (kind unsupported_conn) (fd ∷ [])
  has_exited :
      {fd : ℕ} {c : Ucred}
      → h.pidfd ≡ answer fd
      → h.ucred ≡ answer c
      → pidfd_alive h.fdinfo c.pid ≡ exited
      → Refuses supported h again t (sentinel peer_gone) (fd ∷ [])
  not_checked :
      {fd : ℕ} {c : Ucred}
      → h.pidfd ≡ answer fd
      → h.ucred ≡ answer c
      → pidfd_alive h.fdinfo c.pid ≢ alive
      → pidfd_alive h.fdinfo c.pid ≢ exited
      → Refuses supported h again t (kind no_binding) (fd ∷ [])
  no_image :
      {fd : ℕ} {x : Str}
      → h.pidfd ≡ answer fd
      → h.exe ≡ failed x
      → Refuses supported h again t (kind peer_gone) (fd ∷ [])
  no_capture :
      {fd : ℕ} {e : Err}
      → h.pidfd ≡ answer fd
      → of_handle again t ≡ refused e
      → Refuses supported h again t e (fd ∷ [])

-- What `bindHandle` comes to: a binding, or an error with its reason, behind which the descriptors
-- that were opened are those that were closed.
pub data Outcome (supported : Bool) (h again : Handle) (t : Time) : Bound → Type 0 where
  binds :
      {b : Pinned} {p : Peer}
      → IsBinding supported h again b p
      → Outcome supported h again t (bound b p)
  errs :
      {e : Err} {fds : List ℕ}
      → Refuses supported h again t e fds
      → Outcome supported h again t (unbound e fds fds)

module _ (supported : Bool) (h again : Handle) (t : Time) where
  module _ (support : supported ≡ true) (accepted : require_accepted h ≡ none) (fd : ℕ)
      (given : h.pidfd ≡ answer fd) where
    -- A pin on a path that fails.
    drop_pin-Outcome :
        (pid : ℤ) (exe : Str) (e : Err)
        → Refuses supported h again t e (fd ∷ [])
        → Outcome supported h again t
            (drop_pin (record { pidfd = some fd; pid = pid; exe = exe; closed = [] }) e)
    unfolding drop_pin release
    drop_pin-Outcome pid exe e why = errs why

    Identified-cases :
        (x : Identified) → ((e : Err) × (x ≡ refused e)) ⊎ ((p : Peer) × (x ≡ identified p))
    Identified-cases (refused e) = inl (e, refl)
    Identified-cases (identified p) = inr (p, refl)

    module _ (c : Ucred) (recorded : h.ucred ≡ answer c) where
      bind_image-Outcome :
          (x : Answer Str)
          → h.exe ≡ x
          → pidfd_alive h.fdinfo c.pid ≡ alive
          → Outcome supported h again t (
              bind_image (record { pidfd = some fd; pid = c.pid; exe = []; closed = [] }) x again t)
      unfolding bind_image capture
      bind_image-Outcome (failed x) exe lives = drop_pin-Outcome c.pid [] _ (no_image given exe)
      bind_image-Outcome (answer link) exe lives = elim (Identified-cases (of_handle again t)) [
        | inl (e, q) ↦
            rw (capture, q) (drop_pin-Outcome c.pid (strip_deleted link).0 e (no_capture given q))
        | inr (p, q) ↦
            rw (capture, q)
              (binds (record {
                support = support;
                on_unix = (accepted_unix h accepted).0;
                not_listening = (accepted_unix h accepted).1;
                fd = fd;
                given = given;
                held = (refl, refl);
                cred = c;
                recorded = recorded;
                pid = refl;
                lives = lives;
                link = link;
                image = (exe, refl);
                evidence = of_handle-IsEvidence again t p q;
              }))
      ]

      bind_alive-Outcome :
          (a : Alive)
          → pidfd_alive h.fdinfo c.pid ≡ a
          → Outcome supported h again t (
              bind_alive
                (record { pidfd = some fd; pid = c.pid; exe = []; closed = [] })
                a
                h
                again
                t)
      unfolding bind_alive
      bind_alive-Outcome alive q = bind_image-Outcome h.exe refl q
      bind_alive-Outcome exited q = drop_pin-Outcome c.pid [] _ (has_exited given recorded q)
      bind_alive-Outcome not_pidfd q =
          drop_pin-Outcome c.pid [] _ (not_checked given recorded (λ l. cc) (λ l. cc))
      bind_alive-Outcome mismatch q =
          drop_pin-Outcome c.pid [] _ (not_checked given recorded (λ l. cc) (λ l. cc))
      bind_alive-Outcome unreadable q =
          drop_pin-Outcome c.pid [] _ (not_checked given recorded (λ l. cc) (λ l. cc))

    bind_ucred-Outcome :
        (x : Answer Ucred)
        → h.ucred ≡ x
        → Outcome supported h again t (
            bind_ucred
              (record { pidfd = some fd; pid = negsuc 0; exe = []; closed = [] })
              x
              h
              again
              t)
    unfolding bind_ucred
    bind_ucred-Outcome (failed e) recorded =
        drop_pin-Outcome (negsuc 0) [] _ (no_cred given recorded)
    bind_ucred-Outcome (answer c) recorded =
        bind_alive-Outcome c recorded (pidfd_alive h.fdinfo c.pid) refl

  bind_pidfd-Outcome :
      supported ≡ true
      → require_accepted h ≡ none
      → Outcome supported h again t (bind_pidfd h again t)
  unfolding bind_pidfd
  bind_pidfd-Outcome support accepted = elim (Answer-cases h.pidfd) [
    | inr (e, q) ↦ simp (bind_pidfd, q) (errs (no_pidfd q))
    | inl (fd, q) ↦ simp (bind_pidfd, q) (bind_ucred-Outcome support accepted fd q h.ucred refl)
  ]

  -- Binding a socket's peer, whatever the kernel answers, comes to one of two. Either there is a
  -- binding: pidfds are supported, the socket is an AF_UNIX one and not the listening one unless the
  -- kernel does not tell; the binding holds the connection's own pidfd, not closed, and the pid that
  -- the kernel recorded, found alive behind that pidfd; its image is what that process's link named,
  -- and its capture was read from the socket as it was asked again. Or there is an error, for one of
  -- these reasons and of its kind: the socket is refused, pidfds are not supported, the kernel gives
  -- no pidfd or no credentials, the process has exited or its pidfd cannot be checked, its link
  -- cannot be read, or the socket is refused as it is asked again; and the pidfd, if one was opened,
  -- has been closed, once.
  pub bind_handle-Outcome : Outcome supported h again t (bind_handle supported h again t)
  unfolding bind_handle
  bind_handle-Outcome = elim (Option-cases (require_accepted h)) [
    | inr (e, q) ↦ rw (bind_handle, q) (errs (not_accepted q))
    | inl q ↦
        rw (bind_handle, q)
          (if_rule (Outcome supported h again t) supported _ _ (λ on. bind_pidfd-Outcome on q)
            (λ off. errs (no_support off)))
  ]

abbrev link_of : Answer Str → Str
link_of (failed e) = []
link_of (answer link) = (strip_deleted link).0

module _ (b : Pinned) where
  check_image_iff :
      (x : Answer Str)
      → check_image b x ≢ none
        ↔ ((link : Str) × (x ≡ answer link) × ((strip_deleted link).0 ≢ b.exe))
  unfolding check_image
  check_image_iff (failed e) = (λ some_. absurd (some_ refl), λ (link, q, _). absurd cc)
  check_image_iff (answer link) = (
    λ some_.
        (link, refl, λ same. some_ (ground (arith, eq→str_eq (strip_deleted link).0 b.exe same))),
    λ (l, q, moved) none_. elim (Bool-cases (str_eq (strip_deleted link).0 b.exe)) [
      | inl same ↦ moved (
          subst (λ (y : Answer Str). link_of y ≡ b.exe) q
            (str_eq→eq (strip_deleted link).0 b.exe same))
      | inr differs ↦ absurd (ground (arith, none_, differs))
    ],
  )

  recheck_at :
      (a : Alive) (x : Answer Str)
      → elim a as (λ _. Option Err) [ alive ↦ check_image b x | _ ↦ none ] ≢ none
        ↔ (a ≡ alive) × ((link : Str) × (x ≡ answer link) × ((strip_deleted link).0 ≢ b.exe))
  recheck_at alive x = (λ r. (refl, (check_image_iff x).0 r), λ (_, r). (check_image_iff x).1 r)
  recheck_at exited x = (λ r. absurd (r refl), λ (e, _). absurd cc)
  recheck_at not_pidfd x = (λ r. absurd (r refl), λ (e, _). absurd cc)
  recheck_at mismatch x = (λ r. absurd (r refl), λ (e, _). absurd cc)
  recheck_at unreadable x = (λ r. absurd (r refl), λ (e, _). absurd cc)

-- A recheck refuses a binding exactly when its process is still alive behind the pidfd and its link
-- now names another image than the one that was captured; a peer that has exited, or a link that can
-- no longer be read, contradicts nothing.
pub recheck_iff :
    (b : Pinned) (s : Sight)
    → recheck b s ≢ none
      ↔ (pidfd_alive s.fdinfo b.pid ≡ alive)
        × ((link : Str) × (s.exe ≡ answer link) × ((strip_deleted link).0 ≢ b.exe))
unfolding recheck
recheck_iff b s = recheck_at b (pidfd_alive s.fdinfo b.pid) s.exe
