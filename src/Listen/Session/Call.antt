-- ===== src/Listen/Session/Call.antt =====
-- `sessionCall` of listen/session.go: one exchange on a session connection, as a connection of its
-- own. Each method runs to its end under the call's lock; what the connection does is given.
pub mod Reading
pub mod Replying
pub mod Exchange
use abstraction_identity.Base.{
  ℕ, zero, suc, ◌+◌, ◌-◌, ◌≤◌, ◌<◌, Bool, true, false, not, ◌&&◌, ◌||◌, List, [], ◌∷◌, ◌++◌, ltb,
  leb, ◌==◌, if◌then◌else◌, length, take, drop, Option, none, some,
}
use Prim.Native.Nat.{min}
use abstraction_identity.Errors.{
  Err, sentinel, net_closed, session_expired, eof, io_timeout, unexpected_response, frame_too_large,
  session_protocol, is,
}
use abstraction_identity.Listen.Wire.{
  length_mask, masked, has_one_way, has_session, with_session, session_flag, put_uint32, uint32,
}

-- `sessionCall`: `out` holds the reply header's bytes seen so far. `input` is what the client has
-- sent and the call has not read, and `sent` what the connection has taken of the reply.
pub record Call : Type 0 where
  pub header : List ℕ
  pub header_at : ℕ
  pub remaining : ℕ
  pub one_way : Bool
  pub out : List ℕ
  pub out_left : ℕ
  pub replied : Bool
  pub continued : Bool
  pub closed : Bool
  pub broken : Bool
  pub input : List ℕ
  pub sent : List ℕ

-- The call that `run` makes of a request header.
unfoldable pub new_call : ℕ → List ℕ → Call
new_call header input = record {
  header = put_uint32 (masked header);
  header_at = 0;
  remaining = masked header;
  one_way = has_one_way header;
  out = [];
  out_left = 0;
  replied = false;
  continued = false;
  closed = false;
  broken = false;
  input = input;
  sent = [];
}

-- What a `Read` returns, and the call after it.
pub record ReadResult : Type 0 where
  pub bytes : List ℕ
  pub error : Option Err
  pub call : Call

abbrev pub read_error : Call → Err → ReadResult
read_error c e = record { bytes = []; error = some e; call = c }

abbrev pub break : Call → Call
break c = record c { broken = true }

-- The connection's `Read` into `room` bytes: at most `arrives` of what the client has sent.
abbrev arrived : Call → ℕ → ℕ → List ℕ
arrived c room arrives = take (min room arrives) c.input

abbrev after_arrival : Call → ℕ → ℕ → Call
after_arrival c room arrives = record c { input = drop (min room arrives) c.input }

abbrev breaks_on : Option Err → Bool
breaks_on none = false
breaks_on (some e) = not (is e io_timeout)

-- Behind the connection's `Read`, while request bytes are outstanding.
unfoldable pub read_request : Call → (room arrives : ℕ) → Option Err → (late : Bool) → ReadResult
read_request c room arrives e late =
    let t = after_arrival c room arrives in
    if late then read_error (break t) (sentinel session_expired) else record {
      bytes = arrived c room arrives;
      error = e;
      call = record t {
        remaining = c.remaining - length (arrived c room arrives);
        broken = c.broken || breaks_on e;
      };
    }

-- Behind the connection's `Read`, when the request is consumed: any byte breaks the session.
unfoldable pub read_beyond : Call → (room arrives : ℕ) → Option Err → ReadResult
read_beyond c room arrives e =
    let t = after_arrival c room arrives in
    if ltb 0 (length (arrived c room arrives))
    then record { bytes = arrived c room arrives; error = none; call = break t }
    else record { bytes = []; error = e; call = record t { broken = c.broken || breaks_on e } }

-- `sessionCall.Read` into `room` bytes: `early` and `late` are whether the binding has expired
-- before and after the connection's `Read`, of which at most `arrives` bytes and `e` come.
unfoldable pub read : Call → (room arrives : ℕ) → Option Err → (early late : Bool) → ReadResult
read c room arrives e early late =
    if c.closed
    then read_error c (sentinel net_closed)
    else if ltb c.header_at 4
    then (if early then read_error (break c) (sentinel session_expired) else record {
      bytes = take room (drop c.header_at c.header);
      error = none;
      call = record c { header_at = c.header_at + min room (4 - c.header_at) };
    })
    else if ltb 0 c.remaining
    then (if early
        then read_error (break c) (sentinel session_expired)
        else read_request c (min room c.remaining) arrives e late)
    else if c.replied
    then read_error c (sentinel eof)
    else read_beyond c (min room 1) arrives e

-- What a `Write` returns, and the call after it.
pub record WriteResult : Type 0 where
  pub written : ℕ
  pub error : Option Err
  pub call : Call

abbrev pub write_result : ℕ → Option Err → Call → WriteResult
write_result n e c = record { written = n; error = e; call = c }

-- The end of `Write`: `p` is what is left of what the handler wrote.
unfoldable pub write_end : Call → ℕ → List ℕ → WriteResult
write_end c written p =
    let t = if c.out_left == 0 then record c { replied = true } else c in
    if ltb 0 (length p)
    then write_result written (some (sentinel session_protocol)) (break t)
    else write_result written none t

-- The body part of `Write`: the connection takes `n` bytes of the chunk, and answers `e`.
unfoldable pub write_body : Call → ℕ → List ℕ → (n : ℕ) → Option Err → WriteResult
write_body c written p n e =
    if ltb 0 (length p) && ltb 0 c.out_left
    then (let chunk = take c.out_left p in
        let m = min n (length chunk) in
        let t = record c { out_left = c.out_left - m; sent = c.sent ++ take m chunk } in
        elim e [
          | some x ↦ write_result (written + m) (some x) (break t)
          | none ↦ write_end t (written + m) (drop m p)
        ])
    else write_end c written p

-- `binary.BigEndian.Uint32(c.out[:])`, of the four bytes of a complete reply header.
abbrev pub reply_size : List ℕ → ℕ
reply_size (a ∷ b ∷ c ∷ d ∷ _) = uint32 a b c d
reply_size _ = 0

-- `next` of `Write`: the header that is sent on.
abbrev pub reply_header : Bool → ℕ → ℕ
reply_header retiring size = if retiring then size else with_session size

-- The reply header is complete: it is sent on with the session bit, unless the session retires,
-- together with the body bytes that came along; `fault` is the connection's answer.
unfoldable pub write_header :
    Call
    → ℕ
    → List ℕ
    → (retiring : Bool) → (fault : Option Err) → (n : ℕ) → Option Err
    → WriteResult
write_header c written p retiring fault n e =
    let size = reply_size c.out in
    let next = reply_header retiring size in
    let body = take size p in
    if ltb length_mask size
    then write_result written (some (sentinel frame_too_large)) (break c)
    else elim fault [
      | some x ↦ write_result written (some x) (break (record c { out_left = size }))
      | none ↦
          write_body
            (record c {
              out_left = size - length body;
              continued = has_session next;
              sent = c.sent ++ (put_uint32 next ++ body);
            })
            (written + length body) (drop (length body) p) n e
    ]

-- `sessionCall.Write`
unfoldable pub write :
    Call → List ℕ → (retiring : Bool) → (fault : Option Err) → (n : ℕ) → Option Err → WriteResult
write c p retiring fault n e =
    if c.closed
    then write_result 0 (some (sentinel net_closed)) c
    else if c.one_way
    then write_result 0 (some (sentinel unexpected_response)) (break c)
    else if ltb (length c.out) 4
    then (let k = min (4 - length c.out) (length p) in
        let t = record c { out = c.out ++ take k p } in
        if ltb (length t.out) 4
        then write_result k none t
        else write_header t k (drop k p) retiring fault n e)
    else write_body c 0 p n e

-- `sessionCall.Close`, with no read pending; `fault` is the answer to the one-way completion.
unfoldable pub close : Call → (retiring : Bool) → (fault : Option Err) → Call
close c retiring fault =
    let t = record c { closed = true } in
    if c.closed
    then c
    else if c.broken
    then t
    else if ltb c.header_at 4 || ltb 0 c.remaining
    then break t
    else if c.one_way
    then (let complete = if retiring then 0 else session_flag in
        elim fault [
          | some x ↦ record t { broken = true; continued = not (complete == 0) }
          | none ↦ record t {
            continued = not (complete == 0);
            sent = c.sent ++ put_uint32 complete;
          }
        ])
    else if not c.replied
    then break t
    else t

-- Whether `run` goes on to a next request on the connection.
abbrev pub reusable : Call → Bool
reusable c = not c.broken && c.continued
