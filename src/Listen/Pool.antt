-- ===== src/Listen/Pool.antt =====
-- listen/pool.go: the pool of idle connections of one endpoint and expectation (one key), and the
-- memory of endpoints that serve one exchange per connection. A connection is its number; whether
-- it is intact is what the system says of it. Each method runs under the pool's lock, but for the
-- closing of connections that are already out of it.
pub mod Bounds
use abstraction_identity.Base.{
  ℕ, zero, suc, ◌+◌, ◌-◌, ◌≤◌, ◌<◌, Bool, true, false, not, ◌&&◌, List, [], ◌∷◌, ◌++◌, ltb, leb,
  if◌then◌else◌, length, Option, none, some,
}
use mathlib.Core.List.{reverse}
use abstraction_identity.Peer.Types.{Time}

-- `poolIdle` and `singleMemory` in nanoseconds, `poolPerEndpoint`
abbrev pub pool_idle : ℕ
pool_idle = 10_000_000_000

abbrev pub pool_per_endpoint : ℕ
pool_per_endpoint = 4

abbrev pub single_memory : ℕ
single_memory = 30_000_000_000

-- `pooled`
pub record Pooled : Type 0 where
  pub conn : ℕ
  pub since : Time

-- `now.Sub(since) < poolIdle`; a time before `since` is no wait.
abbrev pub is_fresh : Time → Pooled → Bool
is_fresh now p = ltb (now - p.since) pool_idle

-- The connection taken, if any, what stays in the pool, and what was closed, in order.
pub record Taken : Type 0 where
  pub conn : Option Pooled
  pub idle : List Pooled
  pub closed : List Pooled

-- The loop of `take`, over the list read from its end.
unfoldable pub take_loop : (intact : ℕ → Bool) → Time → List Pooled → Taken
take_loop intact now [] = record { conn = none; idle = []; closed = [] }
take_loop intact now (p ∷ ps) =
    let rest = take_loop intact now ps in
    if is_fresh now p && intact p.conn
    then record { conn = some p; idle = ps; closed = [] }
    else record { conn = rest.conn; idle = rest.idle; closed = p ∷ rest.closed }

-- `framePool.take`
unfoldable pub take_conn : (intact : ℕ → Bool) → Time → List Pooled → Taken
take_conn intact now list =
    let r = take_loop intact now (reverse list) in record r { idle = reverse r.idle }

-- The loop of `put` that drops what has waited too long, from the front.
unfoldable pub drop_expired : Time → List Pooled → List Pooled × List Pooled
drop_expired now [] = ([], [])
drop_expired now (p ∷ ps) =
    let rest = drop_expired now ps in if is_fresh now p then (p ∷ ps, []) else (rest.0, p ∷ rest.1)

-- The end of `put`, over what is left of the list and what expired.
unfoldable pub put_kept : Pooled → (kept expired : List Pooled) → List Pooled × List Pooled
put_kept p kept expired =
    if leb pool_per_endpoint (length kept) then (kept, p ∷ expired) else (kept ++ (p ∷ []), expired)

-- `framePool.put`: the pool after it, and what it closes.
unfoldable pub put : ℕ → Time → List Pooled → List Pooled × List Pooled
put conn now list =
    let (kept, expired) = drop_expired now list in
    put_kept (record { conn = conn; since = now }) kept expired

-- `framePool.isSingle` for one key: the answer, and the entry after it.
unfoldable pub is_single : Option Time → Time → Bool × Option Time
is_single none now = (false, none)
is_single (some until) now = if ltb until now then (false, none) else (true, some until)

-- `framePool.markSingle`
unfoldable pub mark_single : Time → Option Time
mark_single now = some (now + single_memory)
