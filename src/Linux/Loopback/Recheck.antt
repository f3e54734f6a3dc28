-- ===== src/Linux/Loopback/Recheck.antt =====
-- What the recheck of a loopback binding lets pass.
use abstraction_identity.Base.{
  ℕ, ◌≡◌, inl, inr, refl, true, false, List, [], ◌∷◌, Str, str_eq→eq, Option, none, some, arith,
  Bool-cases,
}
use abstraction_identity.Linux.Loopback.{
  TcpRow, Looked, unread, row, Pinned, empty_holder_rescan, Sight, is_alone, check_holders,
  rescanned, look_again, check_scan, check_row, recheck,
}

-- The table shows no established connection, or cannot be read.
abbrev pub NotEstablished : Looked → Type 0
NotEstablished unread = Unit
NotEstablished (row none) = Unit
NotEstablished (row (some r)) = r.established ≡ false

-- The table was read and shows no established connection.
abbrev pub IsGone : Looked → Type 0
IsGone unread = ⊥
IsGone (row r) = NotEstablished (row r)

-- The image is the one that was captured, where it can be read.
abbrev pub SameImage : Pinned → Option Str → Type 0
SameImage b none = Unit
SameImage b (some e) = e ≡ b.exe

-- Why a recheck finds nothing against the peer.
pub data Fine (b : Pinned) (s : Sight) : Type 0 where
  closed : NotEstablished s.looked → Fine b s
  unscanned : s.holders ≡ none → Fine b s
  closed_since : s.holders ≡ some [] → IsGone s.again → Fine b s
  same_holder :
      (r : TcpRow)
      → s.looked ≡ row (some r)
      → r.inode ≡ b.inode
      → s.holders ≡ some (b.pid ∷ [])
      → SameImage b s.exe
      → Fine b s

alone : (pid : ℕ) (pids : List ℕ) → is_alone pid pids ≡ true → pids ≡ pid ∷ []
unfolding is_alone
alone pid [] h = cc
alone pid (p ∷ []) h = ground arith
alone pid (p ∷ q ∷ ps) h = cc

holders_fine :
    (b : Pinned) (exe : Option Str) (pids : List ℕ)
    → check_holders b exe pids ≡ none
    → (pids ≡ b.pid ∷ []) × SameImage b exe
unfolding check_holders
holders_fine b none pids h = (alone b.pid pids (ground arith), tt)
holders_fine b (some e) pids h = (alone b.pid pids (ground arith), str_eq→eq e b.exe (ground arith))

again_fine :
    (b : Pinned) (exe : Option Str) (l : Looked)
    → look_again b l (check_holders b exe []) ≡ none
    → IsGone l
unfolding look_again rescanned empty_holder_rescan
again_fine b exe unread h = cc ((holders_fine b exe [] h).0)
again_fine b exe (row none) h = tt
again_fine b exe (row (some r)) h = ground (arith, holders_fine b exe [])

scan-Fine :
    (b : Pinned) (s : Sight) (r : TcpRow) (holders : Option (List ℕ))
    → s.looked ≡ row (some r)
    → r.inode ≡ b.inode
    → s.holders ≡ holders
    → check_scan b s holders ≡ none
    → Fine b s
unfolding check_scan
scan-Fine b s r none l i q h = unscanned q
scan-Fine b s r (some []) l i q h = closed_since q (again_fine b s.exe s.again h)
scan-Fine b s r (some (p ∷ ps)) l i q h =
    let (alone_, image) = holders_fine b s.exe (p ∷ ps) h in
    same_holder r l i (ground (arith, q, alone_)) image

row-Fine : (b : Pinned) (s : Sight) (l : Looked) → s.looked ≡ l → check_row b s l ≡ none → Fine b s
unfolding check_row
row-Fine b s unread q h = closed (rw q tt)
row-Fine b s (row none) q h = closed (rw q tt)
row-Fine b s (row (some r)) q h = elim (Bool-cases r.established) [
  | inr no_more ↦ closed (rw q no_more)
  | inl up ↦ scan-Fine b s r s.holders q (ground arith) refl (ground arith)
]

-- A recheck that finds nothing against a loopback peer saw one of four things: no established
-- connection in the socket table, or no table; a process table that it could not scan; no holder,
-- and then no established connection at a second look; or the connection on the same socket, held
-- by the pinned process alone, which runs the captured image wherever that can be read.
pub recheck-Fine : (b : Pinned) (s : Sight) → recheck b s ≡ none → Fine b s
unfolding recheck
recheck-Fine b s h = row-Fine b s s.looked refl h
