-- ===== src/Linux/Loopback.antt =====
-- loopback_linux.go: the binding of a loopback TCP peer. What procfs and the kernel answer, one
-- answer to each question the code asks, is given; the texts of errors are left empty.
pub mod Recheck
pub mod Bind
use abstraction_identity.Base.{
  ℕ, ◌+◌, ◌<◌, ◌≤◌, Bool, true, false, not, ◌&&◌, ◌||◌, List, [], ◌∷◌, ◌==◌, ltb, if◌then◌else◌,
  Str, str_eq, Option, none, some,
}
use abstraction_identity.Errors.{
  Err, Sentinel, sentinel, message, no_binding, peer_gone, peer_pending, peer_moved,
}
use abstraction_identity.Peer.Types.{Time}

-- `tcpRow`
pub record TcpRow : Type 0 where
  pub established : Bool
  pub uid : ℕ
  pub inode : ℕ

-- What `socketRow` answers: the table cannot be read, or it has the row or not.
pub data Looked : Type 0 where
  unread : Looked
  row : Option TcpRow → Looked

abbrev pub kind : Sentinel → Option Err
kind s = some (message (sentinel s) [])

-- `loopbackLinuxBinding`: what was pinned.
pub record Pinned : Type 0 where
  pub inode : ℕ
  pub uid : ℕ
  pub pid : ℕ
  pub exe : Str

-- `emptyHolderRescan`: whether the connection has closed, and the error.
unfoldable pub empty_holder_rescan : Pinned → Option TcpRow → Bool × Option Err
empty_holder_rescan b none = (true, none)
empty_holder_rescan b (some r) =
    if not r.established
    then (true, none)
    else if not (r.inode == b.inode)
    then (false, kind peer_moved)
    else (false, none)

-- What the recheck sees: the table, the holders of the socket, the table again, the image.
pub record Sight : Type 0 where
  pub looked : Looked
  pub holders : Option (List ℕ)
  pub again : Looked
  pub exe : Option Str

-- `pids` is the one process that was pinned.
unfoldable pub is_alone : ℕ → List ℕ → Bool
is_alone pid (p ∷ []) = p == pid
is_alone pid _ = false

-- The end of `recheck`: the holders, then the image.
unfoldable pub check_holders : Pinned → Option Str → List ℕ → Option Err
check_holders b exe pids =
    if not (is_alone b.pid pids)
    then kind peer_moved
    else elim exe [ none ↦ none | some e ↦ if not (str_eq e b.exe) then kind peer_moved else none ]

-- Whether the second look at the table ends the recheck.
unfoldable pub rescanned : Bool × Option Err → (rest : Option Err) → Option Err
rescanned (true, e) rest = e
rescanned (false, some e) rest = some e
rescanned (false, none) rest = rest

unfoldable pub look_again : Pinned → Looked → (rest : Option Err) → Option Err
look_again b unread rest = rest
look_again b (row r) rest = rescanned (empty_holder_rescan b r) rest

unfoldable pub check_scan : Pinned → Sight → Option (List ℕ) → Option Err
check_scan b s none = none
check_scan b s (some []) = look_again b s.again (check_holders b s.exe [])
check_scan b s (some (p ∷ ps)) = check_holders b s.exe (p ∷ ps)

-- `recheck`
unfoldable pub check_row : Pinned → Sight → Looked → Option Err
check_row b s unread = none
check_row b s (row none) = none
check_row b s (row (some r)) =
    if not r.established
    then none
    else if not (r.inode == b.inode)
    then kind peer_moved
    else check_scan b s s.holders

unfoldable pub recheck : Pinned → Sight → Option Err
recheck b s = check_row b s s.looked

-- What `bindLoopback` sees: support for pidfds, the table, its own uid, the holders; and, behind
-- the pin, whether the process lives and holds the socket, its image, its start, and the recheck.
pub record World : Type 0 where
  pub supported : Bool
  pub looked : Looked
  pub self_uid : ℕ
  pub holders : Option (List ℕ)
  pub pidfd : Bool
  pub alive : Bool
  pub holds : Bool
  -- the image, and whether it was deleted
  pub exe : Option (Str × Bool)
  pub started : Option Time
  pub connected_at : Time
  pub sight : Sight

-- `startTimeSlop` in nanoseconds is a parameter. The result: what was pinned, or the error, with
-- whether a pidfd was opened and released.
pub data Bound : Type 0 where
  pinned : Pinned → (deleted : Bool) → (started : Time) → Bound
  failed : Option Err → (opened released : Bool) → Bound

module _ (slop : ℕ) (w : World) where
  abbrev pub refuse : Sentinel → Bound
  refuse s = failed (kind s) false false

  -- `fail`: the pidfd is released.
  abbrev pub fail : Option Err → Bound
  fail e = failed e true true

  unfoldable pub bind_image : TcpRow → ℕ → Option (Str × Bool) → Bound
  bind_image r pid none = fail (kind peer_gone)
  bind_image r pid (some (exe, deleted)) =
      let b : Pinned = record { inode = r.inode; uid = r.uid; pid = pid; exe = exe } in
      elim w.started [
        | none ↦ fail (kind no_binding)
        | some started ↦
            if ltb (w.connected_at + slop) started
            then fail (kind peer_moved)
            else elim (recheck b w.sight) [
              | some e ↦ fail (some e)
              | none ↦ pinned b deleted started
            ]
      ]

  -- From the one holder on.
  unfoldable pub bind_holder : TcpRow → ℕ → Bound
  bind_holder r pid =
      if not w.pidfd
      then refuse peer_gone
      else if not w.alive
      then fail (kind peer_gone)
      else if not w.holds
      then fail (kind peer_moved)
      else bind_image r pid w.exe

  unfoldable pub bind_holders : TcpRow → Option (List ℕ) → Bound
  bind_holders r none = refuse no_binding
  bind_holders r (some []) = refuse peer_pending
  bind_holders r (some (p ∷ [])) = bind_holder r p
  bind_holders r (some (p ∷ q ∷ ps)) = refuse peer_moved

  unfoldable pub bind_row : Looked → Bound
  bind_row unread = refuse no_binding
  bind_row (row none) = refuse peer_gone
  bind_row (row (some r)) =
      if not (r.uid == w.self_uid)
      then refuse no_binding
      else if r.established && r.inode == 0
      then refuse peer_pending
      else bind_holders r w.holders

  -- `bindLoopback`
  unfoldable pub bind_loopback : Bound
  bind_loopback = if not w.supported then refuse no_binding else bind_row w.looked
