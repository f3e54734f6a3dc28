-- ===== src/Examples/Samples.antt =====
-- The data of the examples: an elevated Windows peer, a file system that takes every path as it
-- is, and a transport's limits.
use abstraction_identity.Base.{
  ℕ, Bool, true, false, List, [], ◌∷◌, ◌++◌, refl, ap, sym, take-length, arith, Str, codes, str_eq,
  length, pos, Option, none, some,
}
use abstraction_identity.Proof.{
  proof_none, proof_pid, proof_bound, proof_kernel, proof_signed, attr,
}
use abstraction_identity.Errors.{Err, sentinel, eof}
use abstraction_identity.Listen.Stream.{taken, Writer}
use abstraction_identity.Listen.Frame.Write.{Took}
use abstraction_identity.Listen.Client.{Request, Attempt}
use abstraction_identity.Peer.Types.{User, Process, Code, Peer}
use abstraction_identity.Peer.{Need, Limits}
use abstraction_identity.Program.{Files}
use abstraction_identity.Binding.{owner, Binding}
use abstraction_identity.Listen.Server.{ServerExpectation, ServerConn, Moment}

abbrev pub no_error : Option Err
no_error = none

abbrev pub image : Str
image = codes "/app"

abbrev pub user : User
user = record {
  kind = codes "windows";
  sid = codes "S-1-5";
  name = codes "ann";
  domain = [];
  elevated = true;
  integrity = codes "high";
  integrity_rid = 0x3000;
  restricted = false;
  uid = pos 0;
  gid = pos 0;
  security_context = [];
  audit_session_id = 0;
}

abbrev pub process : Process
process = record { pid = pos 7; start_time = 5; recycled = false; generation = 0 }

abbrev pub code : Code
code = record {
  subject = codes "Vendor";
  issuer = [];
  trusted = false;
  status = codes "bad digest";
  catalog = false;
  description = [];
  original_name = [];
  team_id = [];
}

abbrev pub full_name : Str
full_name = codes "App_1_x64_n_abcdefghijklm"

abbrev pub peer : Peer
peer = record {
  platform = codes "windows";
  transport = codes "pipe";
  observed_at = 9;
  user = attr (codes "user") user proof_kernel [];
  process = attr (codes "process") process proof_kernel [];
  path = attr (codes "path") image proof_bound [];
  package_ = attr (codes "package") full_name proof_signed [];
  code = attr (codes "code") code proof_none (codes "not examined");
  notes = [];
  evidence_valid_until = 0;
}

-- Every path is absolute and clean, and names compare byte by byte.
abbrev pub files : Files
files = record {
  is_abs = λ p. true;
  clean = λ p. p;
  install_path = λ full. some (codes "/apps");
  within = λ path root. true;
  canonical = λ p. p;
  same_path_name = λ a b. str_eq a b;
  file_key = λ p. none;
}

abbrev pub need : Need
need = record {
  user = proof_bound;
  process = proof_none;
  path = proof_bound;
  package_ = proof_none;
  code = proof_none;
}

abbrev pub need_code : Need
need_code = record need { code = proof_pid }

abbrev pub limits : Limits
limits = record {
  platform = codes "windows";
  best = record {
    user = proof_kernel;
    process = proof_kernel;
    path = proof_bound;
    package_ = proof_signed;
    code = proof_none;
  };
  why = λ name. codes "ceiling";
  transport = codes "pipe";
  bindable = true;
  binding = [];
  stronger = [];
}

abbrev pub binding : Binding
binding = record { peer = peer; bound_at = 3; inner = owner }

abbrev pub expectation : ServerExpectation
expectation = record { principal = user; program = image; process = some process }

abbrev pub conn : ServerConn
conn = record { closed = false; expected = some (expectation, peer) }

abbrev pub calm : Moment
calm = record { closed = false; context = none; recheck = none }

-- A writer that takes all that it is given.
abbrev pub log_writer : Writer (List ℕ)
log_writer = record { write = λ s part. (taken (length part), none, s ++ part) }

pub log_writer-Took : (s part : List ℕ) → Took log_writer (λ t. t) s part
log_writer-Took s part = record {
  amount = length part;
  said = refl;
  within = omega arith;
  logged = ap (λ t. s ++ t) (sym (take-length (length part) part (omega arith)));
}

abbrev pub no_platform : Err → Bool
no_platform e = false

-- A request of two bytes.
abbrev pub request : Request
request = record { body = 7 ∷ 8 ∷ []; limit = 100; one_way = false }

-- A connection that everything goes well on.
abbrev pub attempt : (pooled : Bool) → List ℕ → Attempt (List ℕ)
attempt pooled pending = record {
  conn = 1;
  idle = [];
  finished = 50;
  pooled = pooled;
  dial = none;
  use_error = none;
  state = [];
  input = record { pending = pending; ending = sentinel eof };
  ended = false;
  ended_at_finish = false;
  stop = true;
}
