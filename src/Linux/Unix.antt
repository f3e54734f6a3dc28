-- ===== src/Linux/Unix.antt =====
-- identity_linux.go: who is at the other end of an accepted AF_UNIX connection. What the kernel and
-- procfs answer to each question is given.
pub mod Texts
pub mod Evidence
pub mod Bind
use abstraction_identity.Base.{
  ℕ, ◌+◌, Bool, true, false, not, ◌&&◌, ◌||◌, List, [], ◌∷◌, ◌++◌, ◌==◌, ltb, if◌then◌else◌, Str,
  codes, str_eq, is_empty, decimal, Option, none, some, ℤ, pos, int_eq, decimal_int,
}
use abstraction_identity.Proof.{
  Proof, proof_none, proof_pid, proof_bound, proof_kernel, Attr, attr, unknown,
}
use abstraction_identity.Errors.{Err, sentinel, message, unsupported_conn, not_server_end}
use abstraction_identity.Peer.Types.{Time, User, Process, Code, Peer}
use abstraction_identity.Peer.{Need, Limits}
use abstraction_identity.Linux.Proc.{Alive, alive, exited, pidfd_alive, strip_deleted}
use abstraction_identity.Linux.Sandbox.{sandbox_package}
use abstraction_identity.Linux.Unix.Texts.{
  why_peer_cred, why_pid_kernel, why_pidfd_bound, why_no_pidfd, why_no_code, why_package_advisory,
  not_resolved, unchecked, gone, unlinked, exited_midway, pid_zero, listening_end, a_name, labelled,
  carries_label, no_context, binds_exec, cannot_bind,
}

-- An answer of the kernel, or its error's text.
pub data Answer (A : Type 0) : Type 0 where
  answer : A → Answer A
  failed : Str → Answer A

-- `Ucred`
pub record Ucred : Type 0 where
  pub pid : ℤ
  pub uid : ℕ
  pub gid : ℕ

-- What is asked of one socket and its peer's procfs files, in the order of the questions. `check` is
-- the text of a pidfd that cannot be checked, `quote` and `format` print a text and a time.
pub record Handle : Type 0 where
  pub now : Time
  pub domain : Answer ℕ
  pub listening : Answer ℕ
  pub ucred : Answer Ucred
  pub label : Answer Str
  pub pidfd : Answer ℕ
  pub fdinfo : Option Str
  pub check : Alive → Str
  pub started : Option Time
  pub exe : Answer Str
  pub flatpak : Option Str
  pub cgroup : Option Str
  pub fdinfo_after : Option Str
  pub quote : Str → Str
  pub format : Time → Str

abbrev pub af_unix : ℕ
af_unix = 1

-- `domainName`
unfoldable pub domain_name : ℕ → Str
domain_name d =
    if d == 2
    then codes "INET"
    else if d == 10
    then codes "INET6"
    else if d == 16
    then codes "NETLINK"
    else if d == 40
    then codes "VSOCK"
    else decimal d

-- `requireAcceptedUnixSocket`
unfoldable pub require_accepted : Handle → Option Err
require_accepted h = elim h.domain [
  | failed e ↦
      some (
        message (sentinel unsupported_conn) (codes "not a socket (SO_DOMAIN: " ++ (e ++ codes ")")))
  | answer d ↦
      if not (d == af_unix)
      then some (
          message (sentinel unsupported_conn) (
            codes "this is an AF_"
            ++ (domain_name d
                ++ (codes " socket; peer credentials exist only on AF_UNIX, and a loopback TCP "
                    ++ codes "peer has no verifiable identity at all"))))
      else elim h.listening [
        | failed e ↦ none
        | answer n ↦ if n == 0 then none else some (message (sentinel not_server_end) listening_end)
      ]
]

-- `meaningfulLSMLabel`
unfoldable pub meaningful_label : Str → Bool
meaningful_label s = not (
    str_eq s []
    || (str_eq s (codes "kernel")
        || (str_eq s (codes "unlabeled")
            || (str_eq s (codes "unlabeled_t")
                || (str_eq s (codes "unconfined")
                    || (str_eq s (codes "unconfined (enforce)")
                        || str_eq s (codes "unconfined (complain)")))))))

abbrev pub zero_user : User
zero_user = record {
  kind = [];
  sid = [];
  name = [];
  domain = [];
  elevated = false;
  integrity = [];
  integrity_rid = 0;
  restricted = false;
  uid = pos 0;
  gid = pos 0;
  security_context = [];
  audit_session_id = 0;
}

abbrev pub zero_process : Process
zero_process = record { pid = pos 0; start_time = 0; recycled = false; generation = 0 }

abbrev pub zero_code : Code
zero_code = record {
  subject = [];
  issuer = [];
  trusted = false;
  status = [];
  catalog = false;
  description = [];
  original_name = [];
  team_id = [];
}

-- The label that rides on the user, and what is said of it.
unfoldable pub label_of : Handle → Str × Str
label_of h = elim h.label [
  | failed e ↦ ([], codes "; no LSM label (SO_PEERSEC: " ++ (e ++ codes ")"))
  | answer s ↦ if meaningful_label s then (s, labelled) else (
    [],
    codes "; no LSM label (SO_PEERSEC answers "
        ++ (h.quote s ++ codes ", which is the absence of a label)"),
  )
]

unfoldable pub user_of : Handle → Ucred → Attr User
user_of h c =
    attr (codes "user")
      (record zero_user {
        kind = codes "posix";
        uid = pos c.uid;
        gid = pos c.gid;
        security_context = (label_of h).0;
      })
      proof_kernel (why_peer_cred ++ (label_of h).1)

-- `bound`, `readable` and `derivedWhy`
pub record Pin : Type 0 where
  pub bound : Bool
  pub readable : Bool
  pub why : Str

unfoldable pub pin_alive : (check : Alive → Str) → Alive → Pin
pin_alive check alive = record { bound = true; readable = true; why = why_pidfd_bound }
pin_alive check exited = record { bound = false; readable = false; why = gone }
pin_alive check other = record { bound = false; readable = false; why = unchecked (check other) }

-- The pin of the process, where the kernel has one.
unfoldable pub pin : Handle → ℤ → Pin
pin h pid = elim h.pidfd [
  | failed e ↦ record {
    bound = false;
    readable = true;
    why = why_no_pidfd ++ (codes " (SO_PEERPIDFD: " ++ (e ++ codes ")"));
  }
  | answer fd ↦ pin_alive h.check (pidfd_alive h.fdinfo pid)
]

-- `startTimeSlop`
abbrev pub start_time_slop : ℕ
start_time_slop = 2_000_000_000

-- Whether the process under the number started after the connection.
unfoldable pub reused : Handle → (connected_at : Time) → Pin → Bool
reused h connected_at p = elim h.started [
  | none ↦ false
  | some t ↦ not p.bound && ltb (connected_at + start_time_slop) t
]

abbrev note : Peer → Str → Peer
note p text = record p { notes = p.notes ++ (text ∷ []) }

-- The image path: what the link says, whether it was deleted, and how strongly it is proven.
unfoldable pub path_of : Pin → Peer → ℤ → Answer Str → Peer
path_of q p pid (failed e) =
    note
      (record p {
        path =
            unknown [] (codes "path")
              (codes "/proc/" ++ (decimal_int pid ++ (codes "/exe could not be read: " ++ e)));
      })
      (codes "path: " ++ e)
path_of q p pid (answer link) =
    if (strip_deleted link).1
    then note (record p { path = attr (codes "path") (strip_deleted link).0 proof_pid unlinked })
        (codes "path: " ++ unlinked)
    else record p {
      path =
          attr (codes "path") link (if q.bound then proof_bound else proof_pid) (q.why ++ a_name);
    }

unfoldable pub package_of : Handle → Pin → Peer → Peer
package_of h q p =
    let s = sandbox_package h.flatpak h.cgroup in
    if is_empty s.0
    then record p { package_ = unknown [] (codes "package") s.1 }
    else note
        (record p {
          package_ =
              attr (codes "package") s.0 (if q.bound then proof_bound else proof_pid)
                (s.1 ++ (codes "; " ++ (q.why ++ (codes "; " ++ why_package_advisory))));
        })
        (codes "package: " ++ why_package_advisory)

-- The look back, where the pin held.
unfoldable pub look_back : Handle → Pin → ℤ → Peer → Peer
look_back h q pid p =
    if q.bound
    then elim (pidfd_alive h.fdinfo_after pid) [ exited ↦ note p exited_midway | _ ↦ p ]
    else p

abbrev started_of : Option Time → Time
started_of none = 0
started_of (some t) = t

-- The refusal's words for a process that is not the peer.
abbrev reused_why : Handle → (connected_at : Time) → ℤ → Str
reused_why h connected_at pid =
    codes "pid "
    ++ (decimal_int pid
        ++ (codes " now belongs to a process that started at "
            ++ (h.format (started_of h.started)
                ++ (codes ", after this connection existed at "
                    ++ (h.format connected_at ++ codes "; it is not the peer")))))

-- From the pin on.
unfoldable pub identify : Handle → (connected_at : Time) → ℤ → Pin → Peer → Peer
identify h connected_at pid q p0 =
    let p1 = record p0 {
      notes = if q.bound then p0.notes else p0.notes ++ ((codes "process: " ++ q.why) ∷ []);
    } in
    let proc = record zero_process { pid = pid; start_time = started_of h.started } in
    if reused h connected_at q
    then (let why = reused_why h connected_at pid in
        record (note p1 (codes "process: " ++ why)) {
          process = attr (codes "process") (record proc { recycled = true }) proof_kernel why;
          path = unknown [] (codes "path") why;
          package_ = unknown [] (codes "package") why;
        })
    else (let p2 = record p1 {
      process =
          attr (codes "process") proc proof_kernel
            (if q.bound then why_pid_kernel else why_pid_kernel ++ (codes "; " ++ q.why));
    } in
        if not q.readable
        then record p2 {
          path = unknown [] (codes "path") q.why;
          package_ = unknown [] (codes "package") q.why;
        }
        else look_back h q pid (package_of h q (path_of q p2 pid h.exe)))

-- What is known before the questions.
abbrev pub blank : Handle → Peer
blank h = record {
  platform = codes "linux";
  transport = codes "unix";
  observed_at = h.now;
  user = unknown zero_user (codes "user") not_resolved;
  process = unknown zero_process (codes "process") not_resolved;
  path = unknown [] (codes "path") not_resolved;
  package_ = unknown [] (codes "package") not_resolved;
  code = unknown zero_code (codes "code") why_no_code;
  notes = [];
  evidence_valid_until = 0;
}

pub data Identified : Type 0 where
  refused : Err → Identified
  identified : Peer → Identified

unfoldable pub of_ucred : Handle → (connected_at : Time) → Ucred → Identified
of_ucred h connected_at c =
    if int_eq c.pid (pos 0)
    then refused (message (sentinel unsupported_conn) pid_zero)
    else identified
        (identify h connected_at c.pid (pin h c.pid) (record (blank h) { user = user_of h c }))

-- `ofHandle`
unfoldable pub of_handle : Handle → (connected_at : Time) → Identified
of_handle h connected_at = elim (require_accepted h) [
  | some e ↦ refused e
  | none ↦ elim h.ucred [
    | failed e ↦ refused (message (sentinel unsupported_conn) (codes "SO_PEERCRED: " ++ e))
    | answer c ↦ of_ucred h connected_at c
  ]
]

-- `ceiling`, over what the probes `pidfdSupport` and `lsmSupport` found.
unfoldable pub ceiling : (pidfd : Bool × Str) → (lsm : Bool × Str) → Limits
ceiling pidfd lsm =
    let derived = if pidfd.0 then proof_bound else proof_pid in
    let derived_why =
      (if pidfd.0
        then why_pidfd_bound
        else why_no_pidfd ++ (codes " (" ++ (pidfd.1 ++ codes ")"))) in
    record {
      platform = codes "linux";
      best = record {
        user = proof_kernel;
        process = proof_kernel;
        path = derived;
        package_ = derived;
        code = proof_none;
      };
      why = λ name.
          if str_eq name (codes "user")
          then why_peer_cred
            ++ (if lsm.0 then carries_label else codes "; " ++ (lsm.1 ++ no_context))
          else if str_eq name (codes "process")
          then why_pid_kernel
          else if str_eq name (codes "path")
          then derived_why
          else if str_eq name (codes "package")
          then derived_why ++ (codes "; " ++ why_package_advisory)
          else if str_eq name (codes "code")
          then why_no_code
          else [];
      transport = codes "unix";
      bindable = pidfd.0;
      binding = if pidfd.0 then binds_exec else cannot_bind pidfd.1;
      stronger = [];
    }
