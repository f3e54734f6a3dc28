-- ===== src/Peer/Text.antt =====
-- The `String` methods of peer.go, for logs.
use abstraction_identity.Base.{
  [], ◌++◌, Str, codes, str_eq, is_empty, decimal, decimal_int, if◌then◌else◌, ◌==◌,
}
use abstraction_identity.Proof.{attr_string}
use abstraction_identity.Peer.Types.{Time, User, Process, Code, Peer}

windows_user_string : User → Str
windows_user_string u =
    let account = if is_empty u.domain then u.name else u.domain ++ (codes "\\" ++ u.name) in
    let who = if is_empty u.name then u.sid else account ++ (codes " (" ++ (u.sid ++ codes ")")) in
    who
    ++ ((if is_empty u.integrity then [] else codes " " ++ (u.integrity ++ codes "-integrity"))
        ++ ((if u.elevated then codes " elevated" else [])
            ++ (if u.restricted then codes " restricted" else [])))

posix_user_string : User → Str
posix_user_string u =
    codes "uid="
    ++ (decimal_int u.uid
        ++ (codes " gid="
            ++ (decimal_int u.gid
                ++ ((if is_empty u.security_context
                      then []
                      else codes " lsm=" ++ u.security_context)
                    ++ (if u.audit_session_id == 0
                        then []
                        else codes " asid=" ++ decimal u.audit_session_id)))))

-- `User.String`
unfoldable pub user_string : User → Str
unfolding windows_user_string posix_user_string
user_string u =
    if str_eq u.kind (codes "windows")
    then windows_user_string u
    else if str_eq u.kind (codes "posix")
    then posix_user_string u
    else codes "unknown user"

-- `Process.String`, over how a time is printed (RFC 3339).
unfoldable pub process_string : (Time → Str) → Process → Str
process_string format p =
    codes "pid "
    ++ (decimal_int p.pid
        ++ ((if p.generation == 0 then [] else codes "." ++ decimal p.generation)
            ++ ((if p.start_time == 0 then [] else codes " started " ++ format p.start_time)
                ++ (if p.recycled then codes " RECYCLED" else []))))

-- `Code.String`
unfoldable pub code_string : Code → Str
code_string c =
    if is_empty c.subject
    then c.status
    else c.subject
      ++ ((if is_empty c.team_id then [] else codes " [team " ++ (c.team_id ++ codes "]"))
          ++ ((if is_empty c.issuer then [] else codes " (issued by " ++ (c.issuer ++ codes ")"))
              ++ ((if c.trusted then [] else codes " UNTRUSTED: " ++ c.status)
                  ++ (if c.catalog then codes " via-catalog" else []))))

-- `Peer.String`
unfoldable pub peer_string : (Time → Str) → Peer → Str
unfolding user_string process_string code_string
peer_string format p =
    p.platform
    ++ (codes "/"
        ++ (p.transport
            ++ (codes " "
                ++ (attr_string user_string p.user
                    ++ (codes " "
                        ++ (attr_string (process_string format) p.process
                            ++ (codes " "
                                ++ (attr_string (λ s. s) p.path
                                    ++ (codes " "
                                        ++ (attr_string (λ s. s) p.package_
                                            ++ (codes " "
                                                ++ attr_string code_string p.code)))))))))))
