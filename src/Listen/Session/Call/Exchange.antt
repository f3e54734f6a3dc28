-- ===== src/Listen/Session/Call/Exchange.antt =====
-- One exchange of a session, whatever the handler reads and writes: when the connection is used
-- again, client and server agree on where the exchange ended.
use abstraction_identity.Base.{
  ℕ, ◌+◌, ◌-◌, ◌≤◌, ◌≡◌, refl, ap, ◌∙◌, Bool, true, false, List, [], ◌∷◌, ◌++◌, ltb, length, take,
  drop, Option, arith, Bool-cases, inl, inr,
}
use Prim.Native.Nat.{min}
use abstraction_identity.Errors.{Err}
use abstraction_identity.Listen.Wire.{
  length_mask, with_session, has_session, session_flag, put_uint32,
}
use abstraction_identity.Listen.Session.Call.{
  Call, new_call, reply_size, reply_header, ReadResult, arrived, write_header, write_body,
  write_end, read, read_request, read_beyond, write, close, reusable,
}
use abstraction_identity.Listen.Session.Call.Reading.{
  ReadBranch, refused, broke, in_header, in_request, beyond, read-branch,
}
use abstraction_identity.Listen.Session.Call.Replying.{
  Waiting, Sending, Reply, waiting, sending, Kept, write-Kept,
}

moved :
    (c : Call) (at rem : ℕ) (b : Bool) (i : List ℕ)
    → Reply c
    → Reply (record c { header_at = at; remaining = rem; broken = b; input = i })
moved c at rem b i (waiting w) = waiting (record {
  unfinished = w.unfinished;
  nothing_sent = w.nothing_sent;
  not_replied = w.not_replied;
  not_continued = w.not_continued;
})
moved c at rem b i (sending s) = sending (record {
  complete = s.complete;
  two_way = s.two_way;
  fits = s.fits;
  retired = s.retired;
  body = s.body;
  on_wire = s.on_wire;
  left = s.left;
  promise = s.promise;
  whole = s.whole;
})

request-Kept :
    (c : Call) (room arrives : ℕ) (e : Option Err) (late : Bool)
    → Reply c
    → Kept (read_request c room arrives e late).call
unfolding read_request
request-Kept c room arrives e true k = inl refl
request-Kept c room arrives e false k = inr (moved c _ _ _ _ k)

beyond-Kept :
    (c : Call) (room arrives : ℕ) (e : Option Err)
    → Reply c
    → Kept (read_beyond c room arrives e).call
unfolding read_beyond
beyond-Kept c room arrives e k = elim (Bool-cases (ltb 0 (length (arrived c room arrives)))) [
  | inl some_bytes ↦ inl (ground arith)
  | inr no_bytes ↦ rw no_bytes (inr (moved c _ _ _ _ k))
]

read-Kept :
    (c : Call) (room arrives : ℕ) (e : Option Err) (late : Bool) (r : ReadResult)
    → Reply c
    → ReadBranch c room arrives e late r
    → Kept r.call
read-Kept c room arrives e late r k (refused x q) = inr (rw q k)
read-Kept c room arrives e late r k (broke q) = inl q
read-Kept c room arrives e late r k (in_header q) = rw q (inr (moved c _ _ _ _ k))
read-Kept c room arrives e late r k (in_request d q) =
    rw q (request-Kept c (min room c.remaining) arrives e late k)
read-Kept c room arrives e late r k (beyond d z q) = rw q (beyond-Kept c (min room 1) arrives e k)

-- What a handler does with its call.
pub data Use : Type 0 where
  reads : (room arrives : ℕ) → Option Err → (early late : Bool) → Use
  writes : List ℕ → (retiring : Bool) → (fault : Option Err) → (n : ℕ) → Option Err → Use

abbrev pub use_call : Call → Use → Call
use_call c (reads room arrives e early late) = (read c room arrives e early late).call
use_call c (writes p retiring fault n e) = (write c p retiring fault n e).call

unfoldable pub use_all : Call → List Use → Call
use_all c [] = c
use_all c (u ∷ us) = use_all (use_call c u) us

-- No method mends a broken call.
read-broken :
    (c : Call) (room arrives : ℕ) (e : Option Err) (late : Bool) (r : ReadResult)
    → c.broken ≡ true
    → ReadBranch c room arrives e late r
    → r.call.broken ≡ true
unfolding read_request read_beyond
read-broken c room arrives e late r b (refused x q) = rw q b
read-broken c room arrives e late r b (broke q) = q
read-broken c room arrives e late r b (in_header q) = rw q b
read-broken c room arrives e late r b (in_request d q) = ground arith
read-broken c room arrives e late r b (beyond d z q) = ground arith

end-broken :
    (c : Call) (k : ℕ) (p : List ℕ) → c.broken ≡ true → (write_end c k p).call.broken ≡ true
unfolding write_end
end-broken c k p b = ground arith

body-broken :
    (c : Call) (k : ℕ) (p : List ℕ) (n : ℕ) (e : Option Err)
    → c.broken ≡ true
    → (write_body c k p n e).call.broken ≡ true
unfolding write_body
body-broken c k p n e b =
    let chunk = take c.out_left p in
    let m = min n (length chunk) in
    ground (
      arith,
      end-broken c k p b,
      end-broken (record c { out_left = c.out_left - m; sent = c.sent ++ take m chunk }) (k + m)
          (drop m p) b,
    )

header-broken :
    (c : Call) (k : ℕ) (p : List ℕ) (retired : Bool) (fault : Option Err) (n : ℕ) (e : Option Err)
    → c.broken ≡ true
    → (write_header c k p retired fault n e).call.broken ≡ true
unfolding write_header
header-broken c k p retired fault n e b =
    let size = reply_size c.out in
    let body = take size p in
    ground (
      arith,
      body-broken
          (record c {
            out_left = size - length body;
            continued = has_session (reply_header retired size);
            sent = c.sent ++ (put_uint32 (reply_header retired size) ++ body);
          })
          (k + length body) (drop (length body) p) n e b,
    )

write-broken :
    (c : Call) (p : List ℕ) (retired : Bool) (fault : Option Err) (n : ℕ) (e : Option Err)
    → c.broken ≡ true
    → (write c p retired fault n e).call.broken ≡ true
unfolding write
write-broken c p retired fault n e b =
    let k = min (4 - length c.out) (length p) in
    ground (
      arith,
      body-broken c 0 p n e b,
      header-broken (record c { out = c.out ++ take k p }) k (drop k p) retired fault n e b,
    )

use-Kept : (c : Call) (u : Use) → Kept c → Kept (use_call c u)
use-Kept c (reads room arrives e early late) (inl b) =
    inl (read-broken c room arrives e late _ b (read-branch c room arrives e early late))
use-Kept c (writes p retiring fault n e) (inl b) = inl (write-broken c p retiring fault n e b)
use-Kept c (reads room arrives e early late) (inr k) =
    read-Kept c room arrives e late _ k (read-branch c room arrives e early late)
use-Kept c (writes p retiring fault n e) (inr k) = write-Kept c p retiring fault n e k

use_all-Kept : (us : List Use) (c : Call) → Kept c → Kept (use_all c us)
unfolding use_all
use_all-Kept [] c k = k
use_all-Kept (u ∷ us) c k = use_all-Kept us (use_call c u) (use-Kept c u k)

new_call-Kept : (header : ℕ) (input : List ℕ) → Kept (new_call header input)
unfolding new_call
new_call-Kept header input = inr (
    waiting (record {
      unfinished = omega arith;
      nothing_sent = refl;
      not_replied = refl;
      not_continued = refl;
    }))

-- What the client has received when its connection may carry another request.
pub data Completed (c : Call) : Type 0 where
  completion : c.one_way ≡ true → c.sent ≡ put_uint32 session_flag → Completed c
  response :
      (size : ℕ) (body : List ℕ)
      → c.one_way ≡ false
      → size ≤ length_mask
      → length body ≡ size
      → c.sent ≡ put_uint32 (with_session size) ++ body
      → Completed c

module _ (c : Call) (retiring : Bool) (fault : Option Err) (open_ : c.closed ≡ false) where
  closed_consumed : reusable (close c retiring fault) ≡ true → (4 ≤ c.header_at) × (c.remaining ≡ 0)
  unfolding close
  closed_consumed r = ground arith

  closed_one_way :
      reusable (close c retiring fault) ≡ true
      → c.one_way ≡ true
      → (close c retiring fault).sent ≡ c.sent ++ put_uint32 session_flag
  unfolding close
  closed_one_way r one = elim (Bool-cases retiring) [
    | inl e ↦ absurd (ground arith)
    | inr e ↦ ground arith
  ]

  closed_two_way :
      reusable (close c retiring fault) ≡ true
      → c.one_way ≡ false
      → (c.replied ≡ true) × (c.continued ≡ true) × ((close c retiring fault).sent ≡ c.sent)
  unfolding close
  closed_two_way r two = ground arith

  close_one_way : (close c retiring fault).one_way ≡ c.one_way
  unfolding close
  close_one_way = ground arith

  close-Waiting :
      Waiting c → reusable (close c retiring fault) ≡ true → Completed (close c retiring fault)
  close-Waiting w r = elim (Bool-cases c.one_way) [
    | inl one ↦
        completion (close_one_way ∙ one)
          (closed_one_way r one ∙ ap (λ t. t ++ put_uint32 session_flag) w.nothing_sent)
    | inr two ↦ absurd (cc ((closed_two_way r two).0, w.not_replied))
  ]

  close-Sending :
      Sending c → reusable (close c retiring fault) ≡ true → Completed (close c retiring fault)
  close-Sending s r =
      let (replied, continued, same) = closed_two_way r s.two_way in
      let going : s.retired ≡ false = ground arith in
      response (reply_size c.out) s.body (close_one_way ∙ s.two_way) s.fits
        (omega (arith, s.left, s.whole replied))
        (same
          ∙ s.on_wire
          ∙ ap (λ t. put_uint32 (reply_header t (reply_size c.out)) ++ s.body) going)

  close-Kept :
      Kept c → reusable (close c retiring fault) ≡ true → Completed (close c retiring fault)
  unfolding close
  close-Kept (inl broken) r = absurd (ground arith)
  close-Kept (inr (waiting w)) r = close-Waiting w r
  close-Kept (inr (sending s)) r = close-Sending s r

-- Whatever the handler read and wrote through its call, in whatever pieces and with whatever
-- faults of the connection: if the call, still open, is closed and the connection may then carry
-- another request, the whole request was consumed, and the client was sent exactly one complete
-- answer, either the one-way completion or a header with the session bit and a body of the length
-- that it announces, and nothing else.
pub exchange_in_step :
    (header : ℕ) (input : List ℕ) (us : List Use) (retiring : Bool) (fault : Option Err)
    → (use_all (new_call header input) us).closed ≡ false
    → reusable (close (use_all (new_call header input) us) retiring fault) ≡ true
    → let c = use_all (new_call header input) us in
      (4 ≤ c.header_at) × (c.remaining ≡ 0) × Completed (close c retiring fault)
exchange_in_step header input us retiring fault open_ r =
    let c = use_all (new_call header input) us in
    let (a, b) = closed_consumed c retiring fault open_ r in
    (
      a,
      b,
      close-Kept c retiring fault open_
          (use_all-Kept us (new_call header input) (new_call-Kept header input)) r,
    )
