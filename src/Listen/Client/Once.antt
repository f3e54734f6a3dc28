-- ===== src/Listen/Client/Once.antt =====
-- A call is repeated only where the server did not take it, so it is served at most once.
use abstraction_identity.Base.{
  ℕ, zero, suc, ◌≤◌, ◌≡◌, ◌≢◌, inl, inr, refl, Bool, true, false, ◌&&◌, ◌||◌, ◌==◌, if◌then◌else◌,
  arith, Option-cases,
}
use abstraction_identity.Errors.{Err}
use abstraction_identity.Listen.Wire.{session_accept, session_closing, masked, put_uint32}
use abstraction_identity.Listen.Frame.{Frame, frame, no_frame, read_frame_body, write_headed_count}
use abstraction_identity.Listen.Stream.{Input, Writer}
use abstraction_identity.Listen.Client.{
  take_body, declined, flags_of, write_all, Word, word, no_word, read_uint32, Attempt, Turn, again,
  ends, Request, Outcome, answered, opened, accepted, fresh_turn, pooled_turn, turn, after_turn,
  session_loop, session_call, session_attempts,
}

-- The closing marker stands where the answer would.
unfoldable pub is_marked : Word → Bool
is_marked (no_word n e) = false
is_marked (word header rest) = header == session_closing

-- The server sent the closing marker in place of an answer: at once, or behind the acceptance of a
-- session.
unfoldable pub behind_answer : Word → Bool
behind_answer (no_word n e) = false
behind_answer (word ack rest) =
    ack == session_closing || (ack == session_accept && is_marked (read_uint32 rest))

unfoldable pub sent_marker : {S : Type 0} → Attempt S → Bool
sent_marker a =
    if a.pooled then is_marked (read_uint32 a.input) else behind_answer (read_uint32 a.input)

module _ {S : Type 0} (w : Writer S) (platform : Err → Bool) (r : Request) (a : Attempt S) where
  body_ends :
      (header : ℕ) (f : Frame) (s : S) {t : S} → take_body w platform r a header f s ≢ again t
  unfolding take_body
  body_ends header (no_frame e) s h = cc
  body_ends header (frame body rest) s h = cc

  answered-again :
      (x : Word) (s : S) {t : S} → answered w platform r a x s ≡ again t → is_marked x ≡ true
  unfolding answered is_marked
  answered-again (no_word n e) s h = cc
  answered-again (word header rest) s {t} h =
      ground (arith, body_ends header (read_frame_body rest (masked header) r.limit) s {t = t})

  accepted-again :
      (rest : Input) (s : S) {t : S}
      → accepted w platform r a rest s ≡ again t
      → is_marked (read_uint32 rest) ≡ true
  unfolding accepted
  accepted-again rest s {t} h = elim (Option-cases (write_all w r.body s).0) [
    | inl ok ↦ answered-again (read_uint32 rest) (write_all w r.body s).1 {t = t} (ground arith)
    | inr (x, bad) ↦ absurd (ground arith)
  ]

  opened-again :
      (x : Word) (s : S) {t : S} → opened w platform r a x s ≡ again t → behind_answer x ≡ true
  unfolding opened behind_answer declined
  opened-again (no_word n e) s h = ground arith
  opened-again (word ack rest) s {t} h = ground (arith, accepted-again rest s {t = t})

  turn-again : {t : S} → turn w platform r a ≡ again t → sent_marker a ≡ true
  unfolding turn sent_marker fresh_turn pooled_turn
  turn-again {t} h = ground (
    arith,
    opened-again (read_uint32 a.input) (w.write a.state (put_uint32 (flags_of r))).2 {t = t},
    answered-again (read_uint32 a.input) (write_headed_count w (flags_of r) r.body a.state).state
        {t = t},
  )

-- How many of the first rounds a server took the request in.
abbrev pub served : (ℕ → Bool) → ℕ → ℕ
served d zero = 0
served d (suc n) = if d n then suc (served d n) else served d n

after-served :
    {S : Type 0} (d : ℕ → Bool) (i : ℕ) (rest : Outcome) (t : Turn S)
    → served d i ≡ 0
    → ((s : S) → t ≡ again s → d i ≡ false)
    → (d i ≡ false → served d rest.rounds ≤ 1)
    → served d (after_turn i rest t).rounds ≤ 1
unfolding after_turn
after-served d i rest (again s) h free more = more (free s refl)
after-served d i rest (ends e reply single fate s) h free more = ground arith

module _ {S : Type 0} (w : Writer S) (platform : Err → Bool) (r : Request) (env : ℕ → Attempt S)
    (d : ℕ → Bool) (honest : (i : ℕ) → sent_marker (env i) ≡ true → d i ≡ false) where
  loop-served : (n i : ℕ) → served d i ≡ 0 → served d (session_loop w platform r env n i).rounds ≤ 1
  unfolding session_loop
  loop-served zero i h = omega arith
  loop-served (suc n) i h =
      after-served d i (session_loop w platform r env n (suc i)) (turn w platform r (env i)) h
        (λ s q. honest i (turn-again w platform r (env i) q))
        (λ free. loop-served n (suc i) (ground arith))

  -- Where a server sends its closing marker only for a request that it did not take, a call is
  -- taken by at most one server, however often it was repeated.
  pub session_call_once : served d (session_call w platform r env).rounds ≤ 1
  unfolding session_call
  session_call_once = loop-served session_attempts 0 refl
