-- ===== src/Listen/Session/Pending/Owner.antt =====
-- A pending connection is handed on or interrupted, never both.
use abstraction_identity.Base.{
  ℕ, ◌+◌, ◌≤◌, ◌≡◌, ◌⊎◌, inl, refl, true, false, List, [], ◌∷◌, if◌then◌else◌, arith,
}
use abstraction_identity.Listen.Session.Pending.{Pending, release, interrupt}

-- What the goroutines of the listener do with a pending connection: `prepare` releases it to hand
-- it on (and hands it on if it may), or releases it as an admitted session without asking whether
-- it may, and `shutdown` interrupts it.
pub data Move : Type 0 where
  releases admits interrupts_ : Move

-- The connection, and how often it was handed on.
pub record Owned : Type 0 where
  pub pending : Pending
  pub handed : ℕ

unfoldable pub move : Owned → Move → Owned
move o releases =
    let r = release o.pending in
    record { pending = r.0; handed = if r.1 then o.handed + 1 else o.handed }
move o admits = record o { pending = (release o.pending).0 }
move o interrupts_ = record o { pending = interrupt o.pending }

unfoldable pub moves : Owned → List Move → Owned
moves o [] = o
moves o (m ∷ ms) = moves (move o m) ms

-- As the accept loop makes it.
abbrev pub accepted : Owned
accepted = record { pending = record { owned = true; closed = false; interrupts = 0 }; handed = 0 }

-- A connection that was handed on is not owned, and one that is closed was interrupted once and
-- never handed on.
record IsExclusive (o : Owned) : Type 0 where
  unhanded : (o.handed ≡ 0) ⊎ ((o.pending.owned ≡ false) × (o.pending.closed ≡ false))
  interrupted : o.pending.interrupts ≡ (if o.pending.closed then 1 else 0)

move-IsExclusive : (o : Owned) (m : Move) → IsExclusive o → IsExclusive (move o m)
unfolding move release interrupt
move-IsExclusive o releases i = record {
  unhanded = ground (arith, i.unhanded, i.interrupted);
  interrupted = ground (arith, i.unhanded, i.interrupted);
}
move-IsExclusive o admits i = record {
  unhanded = ground (arith, i.unhanded, i.interrupted);
  interrupted = ground (arith, i.unhanded, i.interrupted);
}
move-IsExclusive o interrupts_ i = record {
  unhanded = ground (arith, i.unhanded, i.interrupted);
  interrupted = ground (arith, i.unhanded, i.interrupted);
}

moves-IsExclusive : (ms : List Move) (o : Owned) → IsExclusive o → IsExclusive (moves o ms)
unfolding moves
moves-IsExclusive [] o i = i
moves-IsExclusive (m ∷ ms) o i = moves-IsExclusive ms (move o m) (move-IsExclusive o m i)

-- However the preparing goroutine and the shutdown interleave, a pending connection is interrupted
-- at most once, and it is never both interrupted and handed on to a handler.
pub pending_exclusive :
    (ms : List Move)
    → let o = moves accepted ms in
      (o.pending.interrupts ≤ 1) × ((o.handed ≡ 0) ⊎ (o.pending.interrupts ≡ 0))
pending_exclusive ms =
    let i = moves-IsExclusive ms accepted (record { unhanded = inl refl; interrupted = refl }) in
    (ground (arith, i.interrupted), ground (arith, i.unhanded, i.interrupted))
