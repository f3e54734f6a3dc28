-- ===== src/Linux/Unix/Texts.antt =====
-- identity_linux.go: the texts that explain its answers.
use abstraction_identity.Base.{◌++◌, Str, codes}

-- `whyPeerCred`
abbrev pub why_peer_cred : Str
why_peer_cred =
    codes "uid and gid are the credentials the kernel recorded for the peer at "
    ++ (codes "connect(2); the peer never spoke them and cannot influence them")

-- `whyPidKernel`
abbrev pub why_pid_kernel : Str
why_pid_kernel =
    codes "the pid is the one the kernel recorded at connect(2); the number is a fact "
    ++ (codes "about the connection, but what it refers to now is a separate question - see "
        ++ (codes "path"))

-- `whyPidfdBound`
abbrev pub why_pidfd_bound : Str
why_pidfd_bound =
    codes "read from /proc through a pid held open by the pidfd the kernel handed out "
    ++ (codes "for this connection, so the number cannot have been reassigned to a different "
        ++ (codes "process"))

-- `whyNoPidfd`
abbrev pub why_no_pidfd : Str
why_no_pidfd =
    codes "read from /proc by pid, after the fact: this kernel has no SO_PEERPIDFD "
    ++ (codes "(Linux 6.5) to pin the process, so a pid reused between connect and now would "
        ++ (codes "answer instead"))

-- `whyNoCode`
abbrev pub why_no_code : Str
why_no_code =
    codes "Linux has no per-connection code signature verification for ordinary ELF "
    ++ (codes "binaries; IMA and dm-verity are not queryable this way, and this is not "
        ++ (codes "expected to change"))

-- `whyPackageAdvisory`
abbrev pub why_package_advisory : Str
why_package_advisory =
    codes "a sandbox application id is advisory: it is read from the peer's own mount "
    ++ (codes "namespace (Flatpak) or from a cgroup name (Snap), and neither is beyond the "
        ++ (codes "reach of a hostile process running as the same user - see CONTRACT.md"))

abbrev pub not_resolved : Str
not_resolved = codes "not resolved"

-- The reason where a pidfd cannot be checked.
abbrev pub unchecked : Str → Str
unchecked e =
    codes "the pidfd the kernel gave for this connection could not be checked ("
    ++ (e ++ codes "), so nothing was read out of the pid")

abbrev pub gone : Str
gone =
    codes "the peer has exited: the pidfd for this connection no longer names a running "
    ++ (codes "process, so /proc has nothing left to say about it")

abbrev pub unlinked : Str
unlinked =
    codes "the peer's executable has been unlinked since it started, so this path no "
    ++ (codes "longer refers to the file it is running")

abbrev pub exited_midway : Str
exited_midway =
    codes "process: the peer exited while it was being identified; what was read before "
    ++ (codes "that is still about the right process")

abbrev pub pid_zero : Str
pid_zero =
    codes "SO_PEERCRED reports pid 0: the socket is not connected, or the peer is in a "
    ++ (codes "pid namespace this process cannot see")

abbrev pub listening_end : Str
listening_end =
    codes "this is the listening socket, not an accepted connection; SO_PEERCRED on it "
    ++ (codes "returns the credentials this service had at listen(2) - its own")

abbrev pub a_name : Str
a_name = codes "; a path is a name, not an identity - see CONTRACT.md"

abbrev pub labelled : Str
labelled =
    codes "; SecurityContext is the peer's LSM label as of connect(2), assigned by "
    ++ (codes "policy at exec and not by the peer")

abbrev pub carries_label : Str
carries_label =
    codes "; SO_PEERSEC also carries the peer's LSM label, which is the closest Linux "
    ++ (codes "comes to naming a program rather than a file")

abbrev pub no_context : Str
no_context = codes ", so User.SecurityContext will be empty"

abbrev pub binds_exec : Str
binds_exec =
    codes "SO_PEERPIDFD: the kernel derives a pidfd from the connection itself, so it "
    ++ (codes "names a process instance that cannot be reassigned and cannot follow a later "
        ++ (codes "writer. It does follow execve, which Bind captures the image path to refuse"))

abbrev pub cannot_bind : Str → Str
cannot_bind why =
    why_no_pidfd
    ++ (codes " ("
        ++ (why
            ++ (codes "), so this machine cannot bind a peer: Bind refuses rather than answering "
                ++ codes "from a number")))
