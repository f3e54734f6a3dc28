-- ===== src/Peer/Types.antt =====
-- The records of peer.go: the principal, the process, the code identity, the peer, the options.
use abstraction_identity.Base.{
  ℕ, Bool, false, List, Str, Option, none, some, ℤ, if◌then◌else◌, ◌==◌, [],
}
use abstraction_identity.Proof.{Attr}

-- `time.Time` in nanoseconds; 0 is the zero time, which `IsZero` tests for.
abbrev pub Time : Type 0
Time = ℕ

-- `User`
pub record User : Type 0 where
  pub kind : Str
  pub sid : Str
  pub name : Str
  pub domain : Str
  pub elevated : Bool
  pub integrity : Str
  pub integrity_rid : ℕ
  pub restricted : Bool
  pub uid : ℤ
  pub gid : ℤ
  pub security_context : Str
  pub audit_session_id : ℕ

-- `Process`
pub record Process : Type 0 where
  pub pid : ℤ
  pub start_time : Time
  pub recycled : Bool
  pub generation : ℕ

-- `Code`
pub record Code : Type 0 where
  pub subject : Str
  pub issuer : Str
  pub trusted : Bool
  pub status : Str
  pub catalog : Bool
  pub description : Str
  pub original_name : Str
  pub team_id : Str

-- `Peer`
pub record Peer : Type 0 where
  pub platform : Str
  pub transport : Str
  pub observed_at : Time
  pub user : Attr User
  pub process : Attr Process
  pub path : Attr Str
  pub package_ : Attr Str
  pub code : Attr Code
  pub notes : List Str
  pub evidence_valid_until : Time

-- `Options`
pub record Options : Type 0 where
  pub connected_at : Time
  pub check_revocation : Bool
  pub skip_code_signature : Bool
  pub code_requirement : Str

-- `(*Options).connectedAt`, over what `time.Now` says; `none` is the nil pointer.
unfoldable pub connected_at : Time → Option Options → Time
connected_at now none = now
connected_at now (some o) = if o.connected_at == 0 then now else o.connected_at

-- `(*Options).checkRevocation`, `skipCodeSignature`, `codeRequirement`
unfoldable pub check_revocation : Option Options → Bool
check_revocation none = false
check_revocation (some o) = o.check_revocation

pub skip_code_signature : Option Options → Bool
skip_code_signature none = false
skip_code_signature (some o) = o.skip_code_signature

pub code_requirement : Option Options → Str
code_requirement none = []
code_requirement (some o) = o.code_requirement
