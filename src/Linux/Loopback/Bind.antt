-- ===== src/Linux/Loopback/Bind.antt =====
-- What a loopback binding rests on when it is made, and that a refused one leaves nothing pinned.
use abstraction_identity.Base.{
  ℕ, ◌+◌, ◌≤◌, ◌≡◌, refl, sym, ap, Bool, true, List, [], ◌∷◌, Str, Option, none, some, arith,
}
use abstraction_identity.Errors.{Err}
use abstraction_identity.Peer.Types.{Time}
use abstraction_identity.Linux.Loopback.{
  TcpRow, Looked, unread, row, Pinned, recheck, World, pinned, failed, bind_image, bind_holder,
  bind_holders, bind_row, bind_loopback,
}

module _ (slop : ℕ) (w : World) where
  -- The socket's row belongs to this user, one process alone holds the socket, and behind the pin
  -- that process lives, still holds it, and started before the connection, but for the slop; its
  -- image was read, and a first recheck found nothing.
  pub record IsBound (b : Pinned) (deleted : Bool) (started : Time) : Type 0 where
    pub supported : w.supported ≡ true
    pub found : TcpRow
    pub looked : w.looked ≡ row (some found)
    pub own : found.uid ≡ w.self_uid
    pub same_socket : b.inode ≡ found.inode
    pub one_holder : w.holders ≡ some (b.pid ∷ [])
    pub opened : w.pidfd ≡ true
    pub alive : w.alive ≡ true
    pub holds : w.holds ≡ true
    pub image : w.exe ≡ some (b.exe, deleted)
    pub start : w.started ≡ some started
    pub in_time : started ≤ w.connected_at + slop
    pub rechecked : recheck b w.sight ≡ none

  -- The part of that from the image on.
  record IsImage (r : TcpRow) (pid : ℕ) (x : Option (Str × Bool)) (b : Pinned) (deleted : Bool)
      (started : Time) : Type 0 where
    socket : b.inode ≡ r.inode
    process : b.pid ≡ pid
    image : x ≡ some (b.exe, deleted)
    start : w.started ≡ some started
    in_time : started ≤ w.connected_at + slop
    rechecked : recheck b w.sight ≡ none

  IsImage-bound :
      (r : TcpRow) (pid : ℕ) (x : Option (Str × Bool)) (b : Pinned) (deleted : Bool)
      (started : Time)
      → bind_image slop w r pid x ≡ pinned b deleted started
      → IsImage r pid x b deleted started
  unfolding bind_image
  IsImage-bound r pid none b deleted started h = cc
  IsImage-bound r pid (some (exe, gone)) b deleted started h = record {
    socket = ground arith;
    process = ground arith;
    image = ground arith;
    start = ground arith;
    in_time = ground arith;
    rechecked = ground arith;
  }

  holder_bound :
      (r : TcpRow) (holders : Option (List ℕ)) (b : Pinned) (deleted : Bool) (started : Time)
      → bind_holders slop w r holders ≡ pinned b deleted started
      → (holders ≡ some (b.pid ∷ []))
        × (w.pidfd ≡ true)
        × (w.alive ≡ true)
        × (w.holds ≡ true)
        × IsImage r b.pid w.exe b deleted started
  unfolding bind_holders bind_holder
  holder_bound r none b deleted started h = cc
  holder_bound r (some []) b deleted started h = cc
  holder_bound r (some (p ∷ q ∷ ps)) b deleted started h = cc
  holder_bound r (some (p ∷ [])) b deleted started h =
      let i = IsImage-bound r p w.exe b deleted started (ground arith) in
      (
        ap (λ x. some (x ∷ [])) (sym i.process),
        ground arith,
        ground arith,
        ground arith,
        record {
          socket = i.socket;
          process = refl;
          image = i.image;
          start = i.start;
          in_time = i.in_time;
          rechecked = i.rechecked;
        },
      )

  row-IsBound :
      (l : Looked) (b : Pinned) (deleted : Bool) (started : Time)
      → w.supported ≡ true
      → w.looked ≡ l
      → bind_row slop w l ≡ pinned b deleted started
      → IsBound b deleted started
  unfolding bind_row
  row-IsBound unread b deleted started s q h = cc
  row-IsBound (row none) b deleted started s q h = cc
  row-IsBound (row (some r)) b deleted started s q h =
      let (one, opened, alive, holds, i) =
        holder_bound r w.holders b deleted started (ground arith) in
      record {
        supported = s;
        found = r;
        looked = q;
        own = ground arith;
        same_socket = i.socket;
        one_holder = one;
        opened = opened;
        alive = alive;
        holds = holds;
        image = i.image;
        start = i.start;
        in_time = i.in_time;
        rechecked = i.rechecked;
      }

  -- A loopback binding is made only of a peer whose socket row belongs to this user, which one
  -- process alone holds; behind the pin that process was alive and still held it, its image was
  -- read, it started no later than the connection plus the slop, and a recheck found nothing.
  pub bind_loopback-IsBound :
      (b : Pinned) (deleted : Bool) (started : Time)
      → bind_loopback slop w ≡ pinned b deleted started
      → IsBound b deleted started
  unfolding bind_loopback
  bind_loopback-IsBound b deleted started h =
      row-IsBound w.looked b deleted started (ground arith) refl (ground arith)

  image_released :
      (r : TcpRow) (pid : ℕ) (x : Option (Str × Bool)) {e : Option Err} {opened released : Bool}
      → bind_image slop w r pid x ≡ failed e opened released
      → released ≡ opened
  unfolding bind_image
  image_released r pid none h = ground arith
  image_released r pid (some (exe, gone)) h = ground arith

  holders_released :
      (r : TcpRow) (holders : Option (List ℕ)) {e : Option Err} {opened released : Bool}
      → bind_holders slop w r holders ≡ failed e opened released
      → released ≡ opened
  unfolding bind_holders bind_holder
  holders_released r none h = ground arith
  holders_released r (some []) h = ground arith
  holders_released r (some (p ∷ q ∷ ps)) h = ground arith
  holders_released r (some (p ∷ [])) {e} {opened} {released} h =
      ground (arith, image_released r p w.exe {e = e} {opened = opened} {released = released})

  row_released :
      (l : Looked) {e : Option Err} {opened released : Bool}
      → bind_row slop w l ≡ failed e opened released
      → released ≡ opened
  unfolding bind_row
  row_released unread h = ground arith
  row_released (row none) h = ground arith
  row_released (row (some r)) {e} {opened} {released} h =
      ground (arith, holders_released r w.holders {e = e} {opened = opened} {released = released})

  -- A refused loopback binding has released the pidfd exactly if it had opened one.
  pub bind_loopback_released :
      (e : Option Err) (opened released : Bool)
      → bind_loopback slop w ≡ failed e opened released
      → released ≡ opened
  unfolding bind_loopback
  bind_loopback_released e opened released h =
      ground (arith, row_released w.looked {e = e} {opened = opened} {released = released})
