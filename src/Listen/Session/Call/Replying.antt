-- ===== src/Listen/Session/Call/Replying.antt =====
-- What the client receives of a reply: the handler's header with the session bit put in, and the
-- body that it announced.
use abstraction_identity.Base.{
  ℕ, ◌+◌, ◌-◌, ◌≤◌, ◌<◌, ◌≡◌, ◌⊎◌, refl, sym, ap, ◌∙◌, Bool, true, false, not, ◌&&◌, List, [], ◌++◌,
  ltb, ◌==◌, if◌then◌else◌, length, take, drop, length-append, length-take, Option, none, some,
  arith, Bool-cases, inl, inr,
}
use Prim.Native.Nat.{min}
use mathlib.Core.Path.{subst}
use mathlib.Core.List.{append_assoc}
use abstraction_identity.Errors.{Err}
use abstraction_identity.Listen.Wire.{length_mask, has_session, put_uint32}
use abstraction_identity.Listen.Session.Call.{
  Call, reply_size, reply_header, WriteResult, write_result, write_end, write_body, write_header,
  write, break,
}

-- Nothing of the reply has reached the client.
pub record Waiting (c : Call) : Type 0 where
  pub unfinished : length c.out < 4
  pub nothing_sent : c.sent ≡ []
  pub not_replied : c.replied ≡ false
  pub not_continued : c.continued ≡ false

-- The reply's header is complete, and nothing of it has reached the client yet.
record Announced (c : Call) : Type 0 where
  complete : length c.out ≡ 4
  two_way : c.one_way ≡ false
  nothing_sent : c.sent ≡ []
  not_replied : c.replied ≡ false

-- The reply's header and some of its body have reached the client.
pub record Sending (c : Call) : Type 0 where
  pub complete : length c.out ≡ 4
  pub two_way : c.one_way ≡ false
  pub fits : reply_size c.out ≤ length_mask
  pub retired : Bool
  pub body : List ℕ
  pub on_wire : c.sent ≡ put_uint32 (reply_header retired (reply_size c.out)) ++ body
  pub left : length body + c.out_left ≡ reply_size c.out
  pub promise : c.continued ≡ not retired
  pub whole : c.replied ≡ true → c.out_left ≡ 0

pub data Reply (c : Call) : Type 0 where
  waiting : Waiting c → Reply c
  sending : Sending c → Reply c

-- The call is broken, or its reply is in order.
abbrev pub Kept : Call → Type 0
Kept c = (c.broken ≡ true) ⊎ Reply c

end-Kept : (c : Call) (written : ℕ) (p : List ℕ) → Sending c → Kept (write_end c written p).call
unfolding write_end
end-Kept c written p s = elim (Bool-cases (ltb 0 (length p))) [
  | inl more ↦ inl (ground arith)
  | inr done ↦ rw done (inr (sending (ended (c.out_left == 0) refl)))
]
  where
    ended :
        (b : Bool) → c.out_left == 0 ≡ b → Sending (if b then record c { replied = true } else c)
    ended true e = record {
      complete = s.complete;
      two_way = s.two_way;
      fits = s.fits;
      retired = s.retired;
      body = s.body;
      on_wire = s.on_wire;
      left = s.left;
      promise = s.promise;
      whole = λ _. ground arith;
    }
    ended false e = s

-- The connection takes `m` bytes of a chunk of the body.
chunk_taken :
    (c : Call) (p : List ℕ) (n : ℕ)
    → Sending c
    → let chunk = take c.out_left p in
      let m = min n (length chunk) in
      Sending (record c { out_left = c.out_left - m; sent = c.sent ++ take m chunk })
chunk_taken c p n s =
    let chunk = take c.out_left p in
    let m = min n (length chunk) in
    record {
      complete = s.complete;
      two_way = s.two_way;
      fits = s.fits;
      retired = s.retired;
      body = s.body ++ take m chunk;
      on_wire =
          ap (λ t. t ++ take m chunk) s.on_wire
          ∙ append_assoc (put_uint32 (reply_header s.retired (reply_size c.out))) s.body
              (take m chunk);
      left = omega (
        arith,
        s.left,
        length-append s.body (take m chunk),
        length-take m chunk,
        length-take c.out_left p,
      );
      promise = s.promise;
      whole = λ e. omega (arith, s.whole e);
    }

body-Kept :
    (c : Call) (written : ℕ) (p : List ℕ) (n : ℕ) (e : Option Err)
    → Sending c
    → Kept (write_body c written p n e).call
unfolding write_body
body-Kept c written p n e s = elim (Bool-cases (ltb 0 (length p) && ltb 0 c.out_left)) [
  | inr over ↦ rw over (end-Kept c written p s)
  | inl on ↦ rw on (after e)
]
  where
    chunk : List ℕ
    chunk = take c.out_left p

    m : ℕ
    m = min n (length chunk)

    t : Call
    t = record c { out_left = c.out_left - m; sent = c.sent ++ take m chunk }

    after :
        (x : Option Err)
        → Kept (
            let r : WriteResult = elim x [
              | some y ↦ write_result (written + m) (some y) (break t)
              | none ↦ write_end t (written + m) (drop m p)
            ] in
            r.call)
    after (some y) = inl refl
    after none = end-Kept t (written + m) (drop m p) (chunk_taken c p n s)

flag_lem :
    (size : ℕ) (retired : Bool)
    → size ≤ length_mask
    → has_session (reply_header retired size) ≡ not retired
flag_lem size true h = ground arith
flag_lem size false h = ground arith

header_sent :
    (c : Call) (p : List ℕ) (retired : Bool)
    → Announced c
    → reply_size c.out ≤ length_mask
    → let size = reply_size c.out in
      let next = reply_header retired size in
      let body = take size p in
      Sending (record c {
        out_left = size - length body;
        continued = has_session next;
        sent = c.sent ++ (put_uint32 next ++ body);
      })
header_sent c p retired w small =
    let size = reply_size c.out in
    let body = take size p in
    record {
      complete = w.complete;
      two_way = w.two_way;
      fits = small;
      retired = retired;
      body = body;
      on_wire = ap (λ t. t ++ (put_uint32 (reply_header retired size) ++ body)) w.nothing_sent;
      left = omega (arith, length-take size p);
      promise = flag_lem size retired small;
      whole = λ e. cc (w.not_replied);
    }

header-Kept :
    (c : Call) (written : ℕ) (p : List ℕ) (retired : Bool) (fault : Option Err) (n : ℕ)
    (e : Option Err)
    → Announced c
    → Kept (write_header c written p retired fault n e).call
unfolding write_header
header-Kept c written p retired fault n e w =
    elim (Bool-cases (ltb length_mask (reply_size c.out))) [
      | inl large ↦ inl (ground arith)
      | inr small ↦ rw small (answered fault small)
    ]
  where
    size : ℕ
    size = reply_size c.out

    body : List ℕ
    body = take size p

    t : Call
    t = record c {
      out_left = size - length body;
      continued = has_session (reply_header retired size);
      sent = c.sent ++ (put_uint32 (reply_header retired size) ++ body);
    }

    answered :
        (f : Option Err)
        → ltb length_mask size ≡ false
        → Kept (
            let r : WriteResult = elim f [
              | some x ↦ write_result written (some x) (break (record c { out_left = size }))
              | none ↦ write_body t (written + length body) (drop (length body) p) n e
            ] in
            r.call)
    answered (some x) small = inl refl
    answered none small =
        body-Kept t (written + length body) (drop (length body) p) n e
          (header_sent c p retired w (ground arith))

abbrev filled : Call → List ℕ → Call
filled c p = record c { out = c.out ++ take (min (4 - length c.out) (length p)) p }

length-filled :
    (c : Call) (p : List ℕ)
    → length c.out < 4
    → length (filled c p).out ≡ length c.out + min (4 - length c.out) (length p)
length-filled c p h = omega (
  arith,
  length-append c.out (take (min (4 - length c.out) (length p)) p),
  length-take (min (4 - length c.out) (length p)) p,
)

data WriteBranch (c : Call) (p : List ℕ) (retired : Bool) (fault : Option Err) (n : ℕ)
    (e : Option Err) (r : WriteResult) : Type 0 where
  refused : r.call ≡ c → WriteBranch c p retired fault n e r
  broke : r.call.broken ≡ true → WriteBranch c p retired fault n e r
  filling : length (filled c p).out < 4 → r.call ≡ filled c p → WriteBranch c p retired fault n e r
  announced :
      (k : ℕ)
      → length c.out < 4
      → 4 ≤ length (filled c p).out
      → c.one_way ≡ false
      → r ≡ write_header (filled c p) k (drop k p) retired fault n e
      → WriteBranch c p retired fault n e r
  in_body : 4 ≤ length c.out → r ≡ write_body c 0 p n e → WriteBranch c p retired fault n e r

write-branch :
    (c : Call) (p : List ℕ) (retired : Bool) (fault : Option Err) (n : ℕ) (e : Option Err)
    → WriteBranch c p retired fault n e (write c p retired fault n e)
unfolding write
write-branch c p retired fault n e = elim (Bool-cases c.closed) [
  | inl closed ↦ refused (ground arith)
  | inr open_ ↦ elim (Bool-cases c.one_way) [
    | inl one ↦ broke (ground arith)
    | inr two ↦ elim (Bool-cases (ltb (length c.out) 4)) [
      | inr past ↦ in_body (ground arith) (ground arith)
      | inl before ↦ elim (Bool-cases (ltb (length (filled c p).out) 4)) [
        | inl fewer ↦ filling (ground arith) (ground arith)
        | inr complete ↦
            announced (min (4 - length c.out) (length p)) (ground arith) (ground arith) two
              (ground arith)
      ]
    ]
  ]
]

branch-Kept :
    (c : Call) (p : List ℕ) (retired : Bool) (fault : Option Err) (n : ℕ) (e : Option Err)
    (r : WriteResult)
    → Reply c
    → WriteBranch c p retired fault n e r
    → Kept r.call
branch-Kept c p retired fault n e r k (refused q) = inr (subst Reply (sym q) k)
branch-Kept c p retired fault n e r k (broke q) = inl q
branch-Kept c p retired fault n e r (waiting w) (filling h q) = inr (
    subst Reply (sym q) (
      waiting (record {
        unfinished = h;
        nothing_sent = w.nothing_sent;
        not_replied = w.not_replied;
        not_continued = w.not_continued;
      })))
branch-Kept c p retired fault n e r (sending s) (filling h q) =
    absurd
      (omega (arith, s.complete, length-append c.out (take (min (4 - length c.out) (length p)) p)))
branch-Kept c p retired fault n e r (waiting w) (announced k before h two q) =
    subst (λ (x : WriteResult). Kept x.call) (sym q)
      (header-Kept (filled c p) k (drop k p) retired fault n e (record {
        complete = omega (arith, length-filled c p before, h);
        two_way = two;
        nothing_sent = w.nothing_sent;
        not_replied = w.not_replied;
      }))
branch-Kept c p retired fault n e r (sending s) (announced k before h two q) =
    absurd (omega (arith, s.complete))
branch-Kept c p retired fault n e r (waiting w) (in_body h q) = absurd (omega (arith, w.unfinished))
branch-Kept c p retired fault n e r (sending s) (in_body h q) =
    subst (λ (x : WriteResult). Kept x.call) (sym q) (body-Kept c 0 p n e s)

-- A Write keeps the reply in order, or breaks the call.
pub write-Kept :
    (c : Call) (p : List ℕ) (retired : Bool) (fault : Option Err) (n : ℕ) (e : Option Err)
    → Reply c
    → Kept (write c p retired fault n e).call
write-Kept c p retired fault n e r =
    branch-Kept c p retired fault n e (write c p retired fault n e) r
      (write-branch c p retired fault n e)
