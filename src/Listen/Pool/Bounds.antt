-- ===== src/Listen/Pool/Bounds.antt =====
-- What the pool keeps, gives back and closes.
use abstraction_identity.Base.{
  ℕ, ◌+◌, ◌≤◌, ◌≡◌, ◌⊎◌, inl, inr, refl, sym, ap, ◌∙◌, Bool, true, false, not, ◌&&◌, List, [], ◌∷◌,
  ◌++◌, leb, length, length-append, All, Option, none, some, arith, Bool-cases, Option-cases, ltb,
  if◌then◌else◌, ◌≢◌,
}
use mathlib.Core.Path.{subst}
use mathlib.Core.List.{reverse, append_assoc, reverse-append, reverse-reverse}
use abstraction_identity.Peer.Types.{Time}
use abstraction_identity.Listen.Pool.{
  Pooled, is_fresh, pool_per_endpoint, single_memory, Taken, take_loop, take_conn, drop_expired,
  put_kept, put, is_single, mark_single,
}

-- An entry that `take` may not hand out: it waited too long, or the server has ended it.
abbrev pub is_dead : (ℕ → Bool) → Time → Pooled → Bool
is_dead intact now p = not (is_fresh now p && intact p.conn)

abbrev pub picked : Option Pooled → List Pooled
picked none = []
picked (some p) = p ∷ []

-- A connection handed out is fresh and intact; everything closed on the way is not.
abbrev Sound : (ℕ → Bool) → Time → Taken → Type 0
Sound intact now r =
    All (λ p. is_dead intact now p ≡ false) (picked r.conn)
    × All (λ p. is_dead intact now p ≡ true) r.closed

take_loop-parts :
    (intact : ℕ → Bool) (now : Time) (ps : List Pooled)
    → let r = take_loop intact now ps in ps ≡ r.closed ++ (picked r.conn ++ r.idle)
unfolding take_loop
take_loop-parts intact now [] = refl
take_loop-parts intact now (p ∷ ps) = elim (Bool-cases (is_fresh now p && intact p.conn)) [
  | inl good ↦ rw good
  | inr bad ↦ rw bad (ap (λ t. p ∷ t) (take_loop-parts intact now ps))
]

take_loop-Sound :
    (intact : ℕ → Bool) (now : Time) (ps : List Pooled) → Sound intact now (take_loop intact now ps)
unfolding take_loop
take_loop-Sound intact now [] = (tt, tt)
take_loop-Sound intact now (p ∷ ps) = elim (Bool-cases (is_fresh now p && intact p.conn)) [
  | inl good ↦ rw (good, good) (ground arith)
  | inr bad ↦ let k = take_loop-Sound intact now ps in rw (bad, bad) (k.0, (ground arith, k.1))
]

take_loop-empty :
    (intact : ℕ → Bool) (now : Time) (ps : List Pooled)
    → (take_loop intact now ps).conn ≡ none
    → (take_loop intact now ps).idle ≡ []
unfolding take_loop
take_loop-empty intact now [] h = refl
take_loop-empty intact now (p ∷ ps) h = ground (arith, take_loop-empty intact now ps)

turned :
    (closed idle : List Pooled) (conn : Option Pooled)
    → reverse (closed ++ (picked conn ++ idle)) ≡ reverse idle ++ (picked conn ++ reverse closed)
turned closed idle none = reverse-append closed idle
turned closed idle (some p) =
    reverse-append closed (p ∷ idle)
    ∙ ap (λ t. t ++ reverse closed) (reverse-append (p ∷ []) idle)
    ∙ append_assoc (reverse idle) (p ∷ []) (reverse closed)

-- take gives the most recently pooled connection that is fresh and intact: the pool is what stays,
-- then it, then the connections behind it, all of which are stale or ended and are closed. If none
-- is left to give, every connection was such, and the pool is empty.
pub take_conn_lem :
    (intact : ℕ → Bool) (now : Time) (list : List Pooled)
    → let r = take_conn intact now list in
      (list ≡ r.idle ++ (picked r.conn ++ reverse r.closed))
      × All (λ p. is_dead intact now p ≡ false) (picked r.conn)
      × All (λ p. is_dead intact now p ≡ true) r.closed
      × ((r.conn ≢ none) ⊎ (r.idle ≡ []))
unfolding take_conn
take_conn_lem intact now list =
    let r = take_loop intact now (reverse list) in
    let k = take_loop-Sound intact now (reverse list) in
    (
      sym (reverse-reverse list)
          ∙ ap reverse (take_loop-parts intact now (reverse list))
          ∙ turned r.closed r.idle r.conn,
      k.0,
      k.1,
      elim (Option-cases r.conn) [
        | inl h ↦ inr (ap reverse (take_loop-empty intact now (reverse list) h))
        | inr (p, q) ↦ inl (λ h. cc)
      ],
    )

-- The connection that has been pooled longest, if there is one, has not waited too long.
abbrev pub FirstFresh : Time → List Pooled → Type 0
FirstFresh now [] = Unit
FirstFresh now (p ∷ ps) = is_fresh now p ≡ true

-- The connections stand in the order in which they were pooled.
abbrev pub InOrder : List Pooled → Type 0
InOrder [] = Unit
InOrder (p ∷ ps) = All (λ q. p.since ≤ q.since) ps × InOrder ps

fresh_behind :
    (now : Time) (p : Pooled) (ps : List Pooled)
    → is_fresh now p ≡ true
    → All (λ q. p.since ≤ q.since) ps
    → All (λ q. is_fresh now q ≡ true) ps
fresh_behind now p [] h a = tt
fresh_behind now p (q ∷ qs) h (le, a) = (ground arith, fresh_behind now p qs h a)

FirstFresh-All :
    (now : Time) (ps : List Pooled)
    → FirstFresh now ps
    → InOrder ps
    → All (λ q. is_fresh now q ≡ true) ps
FirstFresh-All now [] h o = tt
FirstFresh-All now (p ∷ ps) h (a, o) = (h, fresh_behind now p ps h a)

InOrder-right : (xs ys : List Pooled) → InOrder (xs ++ ys) → InOrder ys
InOrder-right [] ys o = o
InOrder-right (x ∷ xs) ys (a, o) = InOrder-right xs ys o

drop_expired-parts :
    (now : Time) (list : List Pooled)
    → let r = drop_expired now list in
      (list ≡ r.1 ++ r.0) × All (λ p. is_fresh now p ≡ false) r.1 × FirstFresh now r.0
unfolding drop_expired
drop_expired-parts now [] = (refl, tt, tt)
drop_expired-parts now (p ∷ ps) = elim (Bool-cases (is_fresh now p)) [
  | inl fresh ↦ rw fresh (refl, tt, fresh)
  | inr old ↦
      let k = drop_expired-parts now ps in rw old (ap (λ t. p ∷ t) k.0, (ground arith, k.1), k.2)
]

length-zero : (xs : List Pooled) → length xs ≡ 0 → xs ≡ []
length-zero [] h = refl
length-zero (x ∷ xs) h = absurd (omega arith)

-- The result of a put, where `Left` holds of the old connections that stay: the new connection
-- pooled behind these, or closed.
abbrev pub PutResult :
    (Left : List Pooled → Type 0) → Time → Pooled → List Pooled → List Pooled × List Pooled → Type 0
PutResult Left now p list r =
    (length r.0 ≤ pool_per_endpoint)
    × (((r.0 ≡ list) × (r.1 ≡ p ∷ []) × (length list ≡ pool_per_endpoint) × Left list)
        ⊎ ((old : List Pooled) × (list ≡ r.1 ++ old)
            × (r.0 ≡ old ++ (p ∷ []))
            × All (λ q. is_fresh now q ≡ false) r.1
            × Left old))

module _ (Left : List Pooled → Type 0) (now : Time) (p : Pooled) where
  put_kept_lem :
      (kept expired : List Pooled)
      → length (expired ++ kept) ≤ pool_per_endpoint
      → All (λ q. is_fresh now q ≡ false) expired
      → Left kept
      → PutResult Left now p (expired ++ kept) (put_kept p kept expired)
  unfolding put_kept
  put_kept_lem kept expired bound old left =
      elim (Bool-cases (leb pool_per_endpoint (length kept))) [
        | inl full ↦
            let four : pool_per_endpoint ≤ length kept = ground arith in
            let few = length-append expired kept in
            let e : expired ≡ [] = length-zero expired (omega (arith, few)) in
            rw (full, e) (omega (arith, few), inl (refl, refl, omega (arith, few), left))
        | inr room ↦
            rw room (ground (arith, length-append kept (p ∷ [])), inr (kept, refl, refl, old, left))
      ]

-- put, where the list need not be in order: of the old connections that stay, the first is fresh.
pub put_first :
    (conn : ℕ) (now : Time) (list : List Pooled)
    → length list ≤ pool_per_endpoint
    → PutResult (FirstFresh now) now (record { conn = conn; since = now }) list (put conn now list)
unfolding put
put_first conn now list bound =
    let (kept, expired) = drop_expired now list in
    let (parts, old, first) = drop_expired-parts now list in
    let p : Pooled = record { conn = conn; since = now } in
    subst (λ t. PutResult (FirstFresh now) now p t (put_kept p kept expired)) (sym parts)
      (put_kept_lem (FirstFresh now) now p kept expired
        (subst (λ t. length t ≤ pool_per_endpoint) parts bound) old first)

-- A pool in which put was called in the order of its times, none of them in the future.
pub record IsPool (now : Time) (list : List Pooled) : Type 0 where
  pub few : length list ≤ pool_per_endpoint
  pub in_order : InOrder list
  pub past : All (λ q. q.since ≤ now) list

All-right : (P : Pooled → Type 0) (xs ys : List Pooled) → All P (xs ++ ys) → All P ys
All-right P [] ys a = a
All-right P (x ∷ xs) ys (h, a) = All-right P xs ys a

All-last :
    (P : Pooled → Type 0) (xs : List Pooled) (p : Pooled) → All P xs → P p → All P (xs ++ (p ∷ []))
All-last P [] p a h = (h, tt)
All-last P (x ∷ xs) p (k, a) h = (k, All-last P xs p a h)

InOrder-last :
    (now : Time) (xs : List Pooled) (p : Pooled)
    → p.since ≡ now
    → InOrder xs
    → All (λ q. q.since ≤ now) xs
    → InOrder (xs ++ (p ∷ []))
InOrder-last now [] p e o a = (tt, tt)
InOrder-last now (x ∷ xs) p e (b, o) (h, a) =
    (All-last (λ q. x.since ≤ q.since) xs p b (omega (arith, e, h)), InOrder-last now xs p e o a)

pooled_fresh :
    (now : Time) (p : Pooled) (list : List Pooled) (r : List Pooled × List Pooled)
    → p.since ≡ now
    → IsPool now list
    → PutResult (FirstFresh now) now p list r
    → IsPool now r.0 × PutResult (All (λ q. is_fresh now q ≡ true)) now p list r
pooled_fresh now p list r e i (few, inl (same, shut, four, first)) = (
  subst (IsPool now) (sym same) i,
  (few, inl (same, shut, four, FirstFresh-All now list first i.in_order)),
)
pooled_fresh now p list r e i (few, inr (old, parts, kept, expired, first)) =
    let ordered = InOrder-right r.1 old (subst InOrder parts i.in_order) in
    let past =
      All-right (λ q. q.since ≤ now) r.1 old (subst (All (λ q. q.since ≤ now)) parts i.past) in
    (
      record {
        few = few;
        in_order = subst InOrder (sym kept) (InOrder-last now old p e ordered past);
        past =
            subst (All (λ q. q.since ≤ now)) (sym kept)
              (All-last (λ q. q.since ≤ now) old p past (omega (arith, e)));
      },
      (few, inr (old, parts, kept, expired, FirstFresh-All now old first ordered)),
    )

-- A pool has at most four connections of one key, in the order of the times at which they were put
-- back, and put keeps it so. Either it closes the connections that have waited too long, all of them
-- and no other, and pools the new one behind the rest; or four were there, none of them had waited
-- too long, the new one alone is closed and the pool stays as it is.
pub put_lem :
    (conn : ℕ) (now : Time) (list : List Pooled)
    → IsPool now list
    → let r = put conn now list in
      IsPool now r.0
      × PutResult
          (All (λ q. is_fresh now q ≡ true))
          now
          (record { conn = conn; since = now })
          list
          r
put_lem conn now list i =
    pooled_fresh now (record { conn = conn; since = now }) list (put conn now list) refl i
      (put_first conn now list i.few)

-- An endpoint marked at one time is served one connection per call up to thirty seconds later and
-- no longer; its mark stays for that time, and is dropped by the first question behind it.
pub is_single-mark_single :
    (marked now : Time)
    → let until = marked + single_memory in
      is_single (mark_single marked) now
      ≡ (not (ltb until now), if ltb until now then none else some until)
unfolding is_single mark_single
is_single-mark_single marked now = ground arith
