-- ===== src/Listen/Session/Pending/Replay.antt =====
-- A connection that opens no session reaches its handler as the client sent it.
use abstraction_identity.Base.{
  ℕ, zero, suc, ◌<◌, ◌⊎◌, ◌≡◌, inl, inr, refl, sym, ap, ◌∙◌, Bool, true, false, List, [], ◌∷◌, ◌++◌,
  ltb, length, take, drop, take-append-drop, Option, none, some, arith, Bool-cases,
}
use Prim.Native.Nat.{min}
use mathlib.Core.List.{append_assoc}
use abstraction_identity.Errors.{Err}
use abstraction_identity.Peer.{Need}
use abstraction_identity.Listen.Wire.{session_decline, masked, put_uint32}
use abstraction_identity.Listen.Stream.{Input, Full, full, short, read_full}
use abstraction_identity.Listen.Client.{word, read_uint32}
use abstraction_identity.Listen.Client.Reply.{read_uint32-put}
use abstraction_identity.Listen.Receive.{Arrival, admit_length, admit_header}
use abstraction_identity.Listen.Session.Pending.{
  ReplayConn, replay_read, hands_on, first_rest, first_byte, first_header, handed_on, decide,
}

-- What a handler has still to read of a replayed connection.
abbrev pub to_replay : ReplayConn → Input
to_replay c = record { pending = c.prefix ++ c.under.pending; ending = c.under.ending }

-- The reads of a handler, each with its room and with how much the connection has by then: what they
-- give together, and the connection behind them.
unfoldable pub replay_reads : ReplayConn → List (ℕ × ℕ) → List ℕ × ReplayConn
replay_reads c [] = ([], c)
replay_reads c (r ∷ rs) =
    let rest = replay_reads (replay_read c r.0 r.1).1 rs in
    ((replay_read c r.0 r.1).0 ++ rest.0, rest.1)

prefix_empty : (p : List ℕ) → ltb 0 (length p) ≡ false → p ≡ []
prefix_empty [] h = refl
prefix_empty (x ∷ xs) h = absurd (ground arith)

-- A read of a replayed connection takes its bytes off the front of what is still to be read.
replay_read-to_replay :
    (c : ReplayConn) (room arrives : ℕ)
    → let r = replay_read c room arrives in
      ((to_replay c).pending ≡ r.0 ++ (to_replay r.1).pending)
      × ((to_replay r.1).ending ≡ (to_replay c).ending)
unfolding replay_read
replay_read-to_replay c room arrives = elim (Bool-cases (ltb 0 (length c.prefix))) [
  | inl more ↦ rw more (
    ap (λ t. t ++ c.under.pending) (sym (take-append-drop room c.prefix))
        ∙ append_assoc (take room c.prefix) (drop room c.prefix) c.under.pending,
    refl,
  )
  | inr none_left ↦
      let empty : c.prefix ≡ [] = prefix_empty c.prefix none_left in
      rw (none_left, empty) (sym (take-append-drop (min room arrives) c.under.pending), refl)
]

replay_reads-to_replay :
    (c : ReplayConn) (rs : List (ℕ × ℕ))
    → let r = replay_reads c rs in
      ((to_replay c).pending ≡ r.0 ++ (to_replay r.1).pending)
      × ((to_replay r.1).ending ≡ (to_replay c).ending)
unfolding replay_reads
replay_reads-to_replay c [] = (refl, refl)
replay_reads-to_replay c (r ∷ rs) =
    let (one, same) = replay_read-to_replay c r.0 r.1 in
    let c' = (replay_read c r.0 r.1).1 in
    let (all, kept) = replay_reads-to_replay c' rs in
    (
      one
          ∙ ap (λ t. (replay_read c r.0 r.1).0 ++ t) all
          ∙ sym (
              append_assoc (replay_read c r.0 r.1).0 (replay_reads c' rs).0
                (to_replay (replay_reads c' rs).1).pending),
      kept ∙ same,
    )

taken_some : (n : ℕ) (xs : List ℕ) → 0 < n → (xs ≡ []) ⊎ (0 < length (take n xs))
taken_some n [] h = inl refl
taken_some zero (x ∷ xs) h = absurd (omega arith)
taken_some (suc n) (x ∷ xs) h = inr (omega arith)

-- A read with room, of a connection that has a byte at least, gives a byte unless nothing is left.
replay_read-gives :
    (c : ReplayConn) (room arrives : ℕ)
    → 0 < room
    → 0 < arrives
    → ((to_replay c).pending ≡ []) ⊎ (0 < length (replay_read c room arrives).0)
unfolding replay_read
replay_read-gives c room arrives h k = elim (Bool-cases (ltb 0 (length c.prefix))) [
  | inl more ↦ rw more (elim (taken_some room c.prefix h) [
    | inl e ↦ absurd (full_prefix c.prefix e more)
    | inr some_ ↦ inr some_
  ])
  | inr none_left ↦
      let empty : c.prefix ≡ [] = prefix_empty c.prefix none_left in
      rw (none_left, empty)
        (taken_some (min room arrives) c.under.pending (min_pos room arrives h k))
]
  where
    full_prefix : (p : List ℕ) → p ≡ [] → ltb 0 (length p) ≡ true → ⊥
    full_prefix p e m = absurd (ground (arith, e, m))

    min_pos : (a b : ℕ) → 0 < a → 0 < b → 0 < min a b
    min_pos a b p q = omega arith

rest_hands : (b : ℕ) (f : Full) (c : ReplayConn) → first_rest b f ≡ hands_on c → ⊥
unfolding first_rest
rest_hands b (short n e) c h = cc
rest_hands b (full [] rest) c h = cc
rest_hands b (full (x ∷ []) rest) c h = cc
rest_hands b (full (x ∷ y ∷ []) rest) c h = cc
rest_hands b (full (x ∷ y ∷ z ∷ l) rest) c h = ground arith

first_hands :
    (i : Input) (c : ReplayConn) → first_byte (read_full 1 i) ≡ hands_on c → to_replay c ≡ i
unfolding first_byte read_full
first_hands i c h = byte_hands i.pending refl h
  where
    byte_hands :
        (p : List ℕ) → i.pending ≡ p → first_byte (read_full 1 i) ≡ hands_on c → to_replay c ≡ i
    byte_hands [] q h' = ground (arith, q)
    byte_hands (b ∷ bs) q h' =
        ground (arith, q, rest_hands b (read_full 3 (record { pending = bs; ending = i.ending })) c)

first_header-to_replay :
    (has_deadline : Bool) (deadline : Option Err) (i : Input) (c : ReplayConn)
    → first_header has_deadline deadline i ≡ hands_on c
    → to_replay c ≡ i
unfolding first_header
first_header-to_replay true (some e) i c h = cc
first_header-to_replay true none i c h = first_hands i c h
first_header-to_replay false deadline i c h = ground arith

-- A connection that does not open a session is handed on, whatever the listener had read of it, so
-- that its handler reads what the client sent: whatever reads the handler made, what they gave is
-- the beginning of what the client sent, in order, what is still to be read is the rest of it, and
-- the end of the stream is met behind that; and one more read, with room for a byte and a byte
-- arriving, gives a byte unless there is no rest.
pub first_header-replay_reads :
    (has_deadline : Bool) (deadline : Option Err) (i : Input) (c : ReplayConn) (rs : List (ℕ × ℕ))
    (room arrives : ℕ)
    → 0 < room
    → 0 < arrives
    → first_header has_deadline deadline i ≡ hands_on c
    → let (given, c') = replay_reads c rs in
      (i.pending ≡ given ++ (to_replay c').pending)
      × ((to_replay c').ending ≡ i.ending)
      × (((to_replay c').pending ≡ []) ⊎ (0 < length (replay_read c' room arrives).0))
first_header-replay_reads has_deadline deadline i c rs room arrives h k handed =
    let same = first_header-to_replay has_deadline deadline i c handed in
    let (all, ending) = replay_reads-to_replay c rs in
    (
      ap (λ (x : Input). x.pending) (sym same) ∙ all,
      ending ∙ ap (λ (x : Input). x.ending) same,
      replay_read-gives (replay_reads c rs).1 room arrives h k,
    )

-- A session that is declined is served as one plain exchange: the client is sent the decline, and
-- ReceiveFramed on the connection that is handed on goes on with the length that the client's
-- header holds and the bytes behind that header, and answers no session request.
pub declined_as_plain :
    (header : ℕ) (rest : Input) (c : ReplayConn) (sent : List ℕ) (a : Arrival) (need : Need)
    (limit : ℕ)
    → decide false none header rest ≡ handed_on c sent
    → (sent ≡ put_uint32 session_decline)
      × (admit_header a need limit (read_uint32 (to_replay c))
          ≡ admit_length a need limit [] (masked header) rest)
unfolding decide admit_header
declined_as_plain header rest c sent a need limit h =
    let c' : ReplayConn = record { prefix = put_uint32 (masked header); under = rest } in
    let same : c' ≡ c = ground arith in
    let k : read_uint32 (to_replay c') ≡ word (masked header) rest =
      read_uint32-put (masked header) rest.pending rest.ending (omega arith) in
    (
      ground arith,
      ap (λ t. admit_header a need limit (read_uint32 (to_replay t))) (sym same)
          ∙ rw k (ground arith),
    )
