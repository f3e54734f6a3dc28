-- ===== src/Listen/Session/Admission.antt =====
-- How many connections a session listener holds: `acceptLoop`, `prepare` and `retire` of
-- listen/session.go. The map of sessions is a list, in the order in which a range visits it.
use abstraction_identity.Base.{
  ℕ, zero, suc, ◌+◌, ◌-◌, ◌*◌, ◌≤◌, ◌<◌, ◌≡◌, refl, Bool, true, false, not, ◌&&◌, List, [], ◌∷◌,
  ltb, leb, if◌then◌else◌, length, All, arith,
}
use abstraction_identity.Listen.Session.{Session, retire}

-- The loop of `prepare` over the sessions: each visited one is asked to retire, up to and with the
-- first that is idle.
unfoldable pub retire_one : List Session → List Session × Bool
retire_one [] = ([], false)
retire_one (s ∷ ss) =
    let (s', was_idle) = retire s in
    let rest = retire_one ss in if was_idle then (s' ∷ ss, true) else (s' ∷ rest.0, rest.1)

-- A session as `prepare` makes it.
abbrev pub new_session : Session
new_session = record { expires = 0; idle = false; active = false; retiring = false }

-- The admission part of `prepare`, under the listener's lock: the sessions after it, and whether
-- the new connection is one of them.
unfoldable pub admit : ℕ → (done : Bool) → List Session → List Session × Bool
admit max_sessions done ss =
    let room = ltb (length ss) max_sessions in
    let (ss', admitted) = if room then (ss, true) else retire_one ss in
    if admitted && not done then (new_session ∷ ss', true) else (ss', false)

-- What `acceptLoop` does with a connection: it waits for its first header, or it is closed.
unfoldable pub accept_waiting : ℕ → ℕ → ℕ × Bool
accept_waiting max_sessions waiting =
    if leb (2 * max_sessions) waiting then (waiting, false) else (waiting + 1, true)

-- The listener's counts, and the steps of its goroutines.
pub record Listener : Type 0 where
  pub waiting : ℕ
  pub sessions : List Session

pub data Step (max_sessions : ℕ) (l : Listener) : Listener → Type 0 where
  -- a connection is accepted
  arrive : Step max_sessions l (record l { waiting = (accept_waiting max_sessions l.waiting).0 })
  -- a first header did not open a session
  no_session : 0 < l.waiting → Step max_sessions l (record l { waiting = l.waiting - 1 })
  -- a first header did
  prepare :
      (done : Bool)
      → 0 < l.waiting
      → Step max_sessions l
          (record { waiting = l.waiting - 1; sessions = (admit max_sessions done l.sessions).0 })
  -- sessions go idle, wake, retire or end
  change : (ss : List Session) → Step max_sessions l (record l { sessions = ss })

pub data Reach (max_sessions : ℕ) (l : Listener) : Listener → Type 0 where
  here : Reach max_sessions l l
  then_ : {m n : Listener} → Reach max_sessions l m → Step max_sessions m n → Reach max_sessions l n

Step-waiting :
    {max_sessions : ℕ} {l m : Listener}
    → Step max_sessions l m
    → l.waiting ≤ 2 * max_sessions
    → m.waiting ≤ 2 * max_sessions
unfolding accept_waiting
Step-waiting arrive h = ground arith
Step-waiting (no_session p) h = omega arith
Step-waiting (prepare done p) h = omega arith
Step-waiting (change ss) h = h

-- In every run of a listener that starts with no connection waiting, at most twice MaxSessions
-- connections wait for their first header at a time.
pub waiting_bounded :
    {max_sessions : ℕ} {l m : Listener}
    → l.waiting ≡ 0
    → Reach max_sessions l m
    → m.waiting ≤ 2 * max_sessions
waiting_bounded z here = omega arith
waiting_bounded z (then_ r s) = Step-waiting s (waiting_bounded z r)

abbrev pub AllBusy : List Session → Type 0
AllBusy = All (λ s. s.idle ≡ false)

abbrev pub AllRetiring : List Session → Type 0
AllRetiring = All (λ s. s.retiring ≡ true)

retire_one-busy :
    (ss : List Session)
    → AllBusy ss
    → ((retire_one ss).1 ≡ false)
      × AllRetiring (retire_one ss).0
      × (length (retire_one ss).0 ≡ length ss)
unfolding retire_one retire
retire_one-busy [] h = (refl, tt, refl)
retire_one-busy (s ∷ ss) (h, hs) = ground (arith, retire_one-busy ss hs)

-- With MaxSessions sessions or more and none of them idle, a new connection is declined, no
-- session is lost or added, and every one of the busy sessions is asked to retire.
pub admit_full_busy :
    (max_sessions : ℕ) (done : Bool) (ss : List Session)
    → max_sessions ≤ length ss
    → AllBusy ss
    → let r = admit max_sessions done ss in
      (r.1 ≡ false) × AllRetiring r.0 × (length r.0 ≡ length ss)
unfolding admit
admit_full_busy max_sessions done ss full busy = ground (arith, retire_one-busy ss busy)

abbrev pub has_idle : List Session → Bool
has_idle [] = false
has_idle (s ∷ ss) = if s.idle then true else has_idle ss

retire_one-idle :
    (ss : List Session)
    → has_idle ss ≡ true
    → ((retire_one ss).1 ≡ true)
      × (has_idle (retire_one ss).0 ≡ true)
      × (length (retire_one ss).0 ≡ length ss)
unfolding retire_one retire
retire_one-idle [] h = cc
retire_one-idle (s ∷ ss) h = ground (arith, retire_one-idle ss)

admit_idle :
    (max_sessions : ℕ) (ss : List Session)
    → has_idle ss ≡ true
    → let r = admit max_sessions false ss in
      (r.1 ≡ true) × (has_idle r.0 ≡ true) × (length r.0 ≡ suc (length ss))
unfolding admit
admit_idle max_sessions ss h = ground (arith, retire_one-idle ss h)

-- Connections admitted one after the other, while no session's goroutine has run in between.
unfoldable pub admit_times : ℕ → ℕ → List Session → List Session
admit_times zero max_sessions ss = ss
admit_times (suc n) max_sessions ss = admit_times n max_sessions (admit max_sessions false ss).0

-- MaxSessions does not bound the sessions: while one session that was asked to retire has not yet
-- woken from its idle read, it still counts as idle, and every further connection is admitted, so
-- any number of sessions can be held whatever MaxSessions is.
pub admit_times_unbounded :
    (n max_sessions : ℕ) (ss : List Session)
    → has_idle ss ≡ true
    → length (admit_times n max_sessions ss) ≡ n + length ss
unfolding admit_times
admit_times_unbounded zero max_sessions ss h = omega arith
admit_times_unbounded (suc n) max_sessions ss h =
    let (_, idle, grown) = admit_idle max_sessions ss h in
    omega (arith, grown, admit_times_unbounded n max_sessions (admit max_sessions false ss).0 idle)
