-- ===== src/Linux/Unix/Evidence.antt =====
-- What a peer that `ofHandle` reports was read from, and how it stands to the ceiling.
use abstraction_identity.Base.{
  ℕ, ◌≤◌, ◌≡◌, ◌⊎◌, inl, inr, refl, sym, ap, ==_iff, ◌≢◌, int_eq_iff, Bool, true, false, not, [],
  Str, ◌==◌, if◌then◌else◌, none, ℤ, pos, int_eq, arith, Bool-cases, Option-cases, if_rule,
  is_empty, ◌∷◌, ◌++◌,
}
use mathlib.Core.Path.{subst}
use abstraction_identity.Proof.{Proof, proof_none, proof_pid, proof_bound, proof_kernel, Attr}
use abstraction_identity.Peer.Types.{Time, User, Code, Peer}
use abstraction_identity.Peer.{Need, check, can_ever}
use abstraction_identity.Peer.Policy.{Within, can_ever_sound}
use abstraction_identity.Linux.Proc.{
  Alive, alive, exited, not_pidfd, mismatch, unreadable, pidfd_alive, strip_deleted,
}
use abstraction_identity.Linux.Sandbox.{sandbox_package}
use abstraction_identity.Linux.Unix.Texts.{exited_midway}
use abstraction_identity.Linux.Unix.{
  Answer, answer, failed, Ucred, Handle, af_unix, require_accepted, user_of, Pin, pin_alive, pin,
  path_of, package_of, look_back, reused, identify, identified, of_ucred, of_handle, ceiling, blank,
}

-- The strength that a pin gives.
abbrev strength : Pin → Proof
strength q = if q.bound then proof_bound else proof_pid

-- What stays of a peer while its path and its package are read, and how strong these come out.
record Reads (h : Handle) (q : Pin) (pid : ℤ) (u : Peer) (p : Peer) : Type 0 where
  same_user : p.user ≡ u.user
  same_code : p.code ≡ u.code
  process_proof : p.process.proof ≡ proof_kernel
  process_pid : p.process.value.pid ≡ pid
  path_within : p.path.proof ≤ strength q
  package_within : p.package_.proof ≤ strength q
  path_bound :
      p.path.proof ≡ proof_bound
      → (q.bound ≡ true) × (h.exe ≡ answer p.path.value) × ((strip_deleted p.path.value).1 ≡ false)

module _ (h : Handle) (q : Pin) (pid : ℤ) (u : Peer) where
  -- Before the path is read.
  record Started (p : Peer) : Type 0 where
    same_user : p.user ≡ u.user
    same_code : p.code ≡ u.code
    process_proof : p.process.proof ≡ proof_kernel
    process_pid : p.process.value.pid ≡ pid
    package_within : p.package_.proof ≤ strength q

  path_of-Reads :
      (p : Peer) (e : Answer Str) → h.exe ≡ e → Started p → Reads h q pid u (path_of q p pid e)
  unfolding path_of
  path_of-Reads p (failed e) exe s = record {
    same_user = s.same_user;
    same_code = s.same_code;
    process_proof = s.process_proof;
    process_pid = s.process_pid;
    path_within = ground arith;
    package_within = s.package_within;
    path_bound = λ b. absurd (omega (arith, b));
  }
  path_of-Reads p (answer link) exe s = elim (Bool-cases (strip_deleted link).1) [
    | inl deleted ↦
        rw (deleted, path_of)
          (record {
            same_user = s.same_user;
            same_code = s.same_code;
            process_proof = s.process_proof;
            process_pid = s.process_pid;
            path_within = ground arith;
            package_within = s.package_within;
            path_bound = λ b. absurd (omega (arith, b));
          })
    | inr intact ↦
        rw (intact, path_of)
          (record {
            same_user = s.same_user;
            same_code = s.same_code;
            process_proof = s.process_proof;
            process_pid = s.process_pid;
            path_within = ground arith;
            package_within = s.package_within;
            path_bound = λ b. (ground (arith, b), exe, intact);
          })
  ]

  package_of-Reads : (p : Peer) → Reads h q pid u p → Reads h q pid u (package_of h q p)
  unfolding package_of
  package_of-Reads p r =
      if_rule (Reads h q pid u) (is_empty (sandbox_package h.flatpak h.cgroup).0) _ _
        (λ none_. record {
          same_user = r.same_user;
          same_code = r.same_code;
          process_proof = r.process_proof;
          process_pid = r.process_pid;
          path_within = r.path_within;
          package_within = ground arith;
          path_bound = r.path_bound;
        })
        (λ named. record {
          same_user = r.same_user;
          same_code = r.same_code;
          process_proof = r.process_proof;
          process_pid = r.process_pid;
          path_within = r.path_within;
          package_within = ground arith;
          path_bound = r.path_bound;
        })

  noted-Reads :
      (p : Peer) (text : Str)
      → Reads h q pid u p
      → Reads h q pid u (record p { notes = p.notes ++ (text ∷ []) })
  noted-Reads p text r = record {
    same_user = r.same_user;
    same_code = r.same_code;
    process_proof = r.process_proof;
    process_pid = r.process_pid;
    path_within = r.path_within;
    package_within = r.package_within;
    path_bound = r.path_bound;
  }

  later-Reads :
      (a : Alive) (p : Peer)
      → Reads h q pid u p
      → Reads h q pid u
          (elim a [ exited ↦ record p { notes = p.notes ++ (exited_midway ∷ []) } | _ ↦ p ])
  later-Reads alive p r = r
  later-Reads exited p r = noted-Reads p exited_midway r
  later-Reads not_pidfd p r = r
  later-Reads mismatch p r = r
  later-Reads unreadable p r = r

  look_back-Reads : (p : Peer) → Reads h q pid u p → Reads h q pid u (look_back h q pid p)
  unfolding look_back
  look_back-Reads p r =
      if_rule (Reads h q pid u) q.bound _ _ (λ b. later-Reads (pidfd_alive h.fdinfo_after pid) p r)
        (λ b. r)

  identify-Reads :
      (t : Time) → u.package_.proof ≡ proof_none → Reads h q pid u (identify h t pid q u)
  unfolding identify
  identify-Reads t none_ =
      if_rule (Reads h q pid u) (reused h t q) _ _
        (λ e. (record {
          same_user = refl;
          same_code = refl;
          process_proof = refl;
          process_pid = refl;
          path_within = ground arith;
          package_within = ground arith;
          path_bound = λ b. absurd (omega (arith, b));
        }))
        (λ e.
          if_rule (Reads h q pid u) (not q.readable) _ _
            (λ e2. (record {
              same_user = refl;
              same_code = refl;
              process_proof = refl;
              process_pid = refl;
              path_within = ground arith;
              package_within = ground arith;
              path_bound = λ b. absurd (omega (arith, b));
            }))
            (λ e2. look_back-Reads _ (
              package_of-Reads _ (
                path_of-Reads _ h.exe refl (record {
                  same_user = refl;
                  same_code = refl;
                  process_proof = refl;
                  process_pid = refl;
                  package_within = ground arith;
                })))))

pub Answer-cases :
    {A : Type 0} (x : Answer A) → ((a : A) × (x ≡ answer a)) ⊎ ((e : Str) × (x ≡ failed e))
Answer-cases (answer a) = inl (a, refl)
Answer-cases (failed e) = inr (e, refl)

pin_alive_bound : (check : Alive → Str) (a : Alive) → (pin_alive check a).bound ≡ true → a ≡ alive
unfolding pin_alive
pin_alive_bound check alive h = refl
pin_alive_bound check exited h = cc
pin_alive_bound check not_pidfd h = cc
pin_alive_bound check mismatch h = cc
pin_alive_bound check unreadable h = cc

pin_bound :
    (h : Handle) (pid : ℤ)
    → (pin h pid).bound ≡ true
    → (fd : ℕ) × (h.pidfd ≡ answer fd) × (pidfd_alive h.fdinfo pid ≡ alive)
unfolding pin
pin_bound h pid b = elim (Answer-cases h.pidfd) [
  | inr (e, q) ↦ absurd (ground (arith, q))
  | inl (fd, q) ↦ (fd, q, pin_alive_bound h.check (pidfd_alive h.fdinfo pid) (ground (arith, q)))
]

-- What a reported peer was read from: an AF_UNIX socket of which the kernel does not say that it
-- listens, the credentials that the kernel recorded, whose pid is not the 0 of a socket that is not
-- connected, and, for a path that is called bound, a pidfd that was found alive and a
-- link that names the path and was not deleted.
pub record IsEvidence (h : Handle) (p : Peer) : Type 0 where
  pub cred : Ucred
  pub recorded : h.ucred ≡ answer cred
  pub on_unix : h.domain ≡ answer af_unix
  pub not_listening : (h.listening ≡ answer 0) ⊎ ((e : Str) × (h.listening ≡ failed e))
  pub connected : cred.pid ≢ pos 0
  pub uid : p.user.value.uid ≡ pos cred.uid
  pub pid : (p.process.value.pid ≡ cred.pid) × (p.process.proof ≡ proof_kernel)
  pub bound_path :
      p.path.proof ≡ proof_bound
      → ((fd : ℕ) × (h.pidfd ≡ answer fd))
        × (pidfd_alive h.fdinfo cred.pid ≡ alive)
        × (h.exe ≡ answer p.path.value)
        × ((strip_deleted p.path.value).1 ≡ false)

-- What `requireAcceptedUnixSocket` lets through.
pub accepted_unix :
    (h : Handle)
    → require_accepted h ≡ none
    → (h.domain ≡ answer af_unix)
      × ((h.listening ≡ answer 0) ⊎ ((e : Str) × (h.listening ≡ failed e)))
unfolding require_accepted
accepted_unix h e = elim (Answer-cases h.domain) [
  | inr (x, q) ↦ absurd (ground (arith, q))
  | inl (d, q) ↦ elim (Bool-cases (d == af_unix)) [
    | inr off ↦ absurd (ground (arith, q, off))
    | inl on ↦ (
      rw (← (==_iff d af_unix).0 on) q,
      elim (Answer-cases h.listening) [
        | inr unknown_ ↦ inr unknown_
        | inl (n, l) ↦ elim (Bool-cases (n == 0)) [
          | inl z ↦ inl (rw (← (==_iff n 0).0 z) l)
          | inr listens ↦ absurd (ground (arith, q, on, l, listens))
        ]
      ],
    )
  ]
]

-- Where a peer is reported, what it is made of.
made_of :
    (h : Handle) (t : Time) (p : Peer)
    → of_handle h t ≡ identified p
    → (c : Ucred) × (h.ucred ≡ answer c)
      × (require_accepted h ≡ none)
      × (c.pid ≢ pos 0)
      × (p ≡ identify h t c.pid (pin h c.pid) (record (blank h) { user = user_of h c }))
unfolding of_handle of_ucred
made_of h t p e = elim (Option-cases (require_accepted h)) [
  | inr (x, q) ↦ absurd (ground (arith, q))
  | inl q ↦ elim (Answer-cases h.ucred) [
    | inr (x, r) ↦ absurd (ground (arith, q, r))
    | inl (c, r) ↦ elim (Bool-cases (int_eq c.pid (pos 0))) [
      | inl z ↦ absurd (ground (arith, q, r, z))
      | inr nz ↦ (
        c,
        r,
        q,
        λ zero_pid. absurd (ground (arith, nz, (int_eq_iff c.pid (pos 0)).1 zero_pid)),
        ground (arith, q, r, nz),
      )
    ]
  ]
]

made-Reads :
    (h : Handle) (t : Time) (c : Ucred) (p : Peer)
    → p ≡ identify h t c.pid (pin h c.pid) (record (blank h) { user = user_of h c })
    → Reads h (pin h c.pid) c.pid (record (blank h) { user = user_of h c }) p
made-Reads h t c p e =
    subst (Reads h (pin h c.pid) c.pid (record (blank h) { user = user_of h c })) (sym e)
      (identify-Reads h (pin h c.pid) c.pid (record (blank h) { user = user_of h c }) t refl)

-- Every peer that is reported for a socket was read from that socket, which is an AF_UNIX socket, is
-- not the listening one unless the kernel does not tell, and is connected, in that the pid recorded
-- for its peer is not 0: its user and its pid are those that the kernel recorded at connect, and its
-- path is called bound only where a pidfd of the connection was found alive and
-- the link names exactly that path, not deleted.
pub of_handle-IsEvidence :
    (h : Handle) (t : Time) (p : Peer) → of_handle h t ≡ identified p → IsEvidence h p
unfolding user_of
of_handle-IsEvidence h t p e =
    let (c, r, q, nz, m) = made_of h t p e in
    let reads = made-Reads h t c p m in
    record {
      cred = c;
      recorded = r;
      on_unix = (accepted_unix h q).0;
      not_listening = (accepted_unix h q).1;
      connected = nz;
      uid = ap (λ (a : Attr User). a.value.uid) reads.same_user;
      pid = (reads.process_pid, reads.process_proof);
      bound_path = λ b.
          let (held, link, intact) = reads.path_bound b in
          let (fd, given, lives) = pin_bound h c.pid held in ((fd, given), lives, link, intact);
    }

module _ (pidfd lsm : Bool × Str) (h : Handle)
    (support : (fd : ℕ) → h.pidfd ≡ answer fd → pidfd.0 ≡ true) where
  strength-ceiling : (pid : ℤ) → strength (pin h pid) ≤ (ceiling pidfd lsm).best.path
  unfolding ceiling
  strength-ceiling pid = elim (Bool-cases (pin h pid).bound) [
    | inl b ↦
        let (fd, given, _) = pin_bound h pid b in let supported = support fd given in ground arith
    | inr b ↦ ground arith
  ]

  -- Where a connection gives a pidfd only on a kernel whose support for pidfds was found at the
  -- start: no peer that is reported is proven above the ceiling in any attribute.
  pub of_handle-Within :
      (t : Time) (p : Peer) → of_handle h t ≡ identified p → Within p (ceiling pidfd lsm)
  unfolding ceiling user_of
  of_handle-Within t p e =
      let (c, r, q, nz, m) = made_of h t p e in
      let reads = made-Reads h t c p m in
      let top = strength-ceiling c.pid in
      let u = ap (λ (a : Attr User). a.proof) reads.same_user in
      let k = ap (λ (a : Attr Code). a.proof) reads.same_code in
      (
        omega (arith, u),
        omega (arith, reads.process_proof),
        omega (arith, reads.path_within, top),
        omega (arith, reads.package_within, top),
        omega (arith, k),
      )

  -- Under the same condition, the check of a policy at startup refuses none that a peer of such a
  -- socket passes.
  pub of_handle-can_ever :
      (t : Time) (p : Peer) (n : Need)
      → of_handle h t ≡ identified p
      → check p n ≡ none
      → can_ever (ceiling pidfd lsm) n ≡ none
  of_handle-can_ever t p n e passed =
      can_ever_sound (ceiling pidfd lsm) p n (of_handle-Within t p e) passed
