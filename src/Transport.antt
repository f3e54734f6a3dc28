-- ===== src/Transport.antt =====
-- transport.go: the transport whose limits are asked for.
use abstraction_identity.Base.{Str, codes, str_eq, true, ◌||◌, is_empty, if◌then◌else◌, ◌++◌, []}
use abstraction_identity.Errors.{unsupported_conn, Err, message, sentinel}
use abstraction_identity.Proof.{proof_none, proof_bound, proof_kernel}
use abstraction_identity.Peer.{Limits}

-- `Transport`; the native stream transport is the empty string.
abbrev pub Transport : Type 0
Transport = Str

abbrev pub transport_native : Transport
transport_native = []

abbrev pub transport_xpc : Transport
transport_xpc = codes "xpc"

pub data CeilingResult : Type 0 where
  limits : Limits → CeilingResult
  unavailable : Err → CeilingResult

-- `xpcLimits`
xpc_why : Str → Str
xpc_why key =
    if str_eq key (codes "user")
    then codes "credentials of the exact message's remote connection"
    else if str_eq key (codes "process")
    then codes
        "process of the exact message's remote connection, checked against message-bound code"
    else if str_eq key (codes "path")
    then codes "validated message code's main executable agrees with the sender process path"
    else if str_eq key (codes "package")
    then codes "no trusted publisher policy is configured"
    else if str_eq key (codes "code")
    then codes "code validity alone does not establish trusted publisher identity"
    else []

unfoldable pub xpc_limits : Limits
unfolding xpc_why
xpc_limits = record {
  platform = codes "darwin";
  best = record {
    user = proof_kernel;
    process = proof_kernel;
    path = proof_bound;
    package_ = proof_none;
    code = proof_none;
  };
  why = xpc_why;
  transport = transport_xpc;
  bindable = true;
  binding = codes "validated XPC message and its remote connection";
  stronger = [];
}

-- `CeilingFor`, over the build's `xpcCeiling` and the platform's `Ceiling`.
unfoldable pub ceiling_for : CeilingResult → Limits → Transport → CeilingResult
ceiling_for xpc_ceiling native transport =
    if str_eq transport transport_xpc
    then xpc_ceiling
    else if is_empty transport || str_eq transport native.transport
    then limits native
    else unavailable (
        message (sentinel unsupported_conn) (
          codes ": identity transport \""
          ++ (transport ++ (codes "\" is unavailable on " ++ native.platform))))
