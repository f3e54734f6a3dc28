-- ===== src/Listen/FramedCall/Replied.antt =====
-- What a reply that reports no error has done.
use abstraction_identity.Base.{
  ℕ, ◌+◌, ◌≤◌, ◌≡◌, ◌≢◌, ◌∙◌, inl, inr, refl, ap, Bool, true, false, List, [], ◌∷◌, ◌++◌, ◌==◌, ltb,
  length, take-length, Option, none, some, arith, Bool-cases, Option-cases,
}
use mathlib.Core.Path.{subst}
use abstraction_identity.Errors.{Err, sentinel, frame_too_large, eof, is}
use abstraction_identity.Binding.{Answer, answered, refused, peer_of}
use abstraction_identity.Listen.Wire.{put_uint32}
use abstraction_identity.Listen.Stream.{Input, Full, full, short, read_full, one, read_one, Writer}
use abstraction_identity.Listen.Frame.{
  write_headed_count, write_frame, wait_frame_eof, wait_frame_eof_after,
}
use abstraction_identity.Listen.Frame.Write.{Took, write_headed_count-log}
use abstraction_identity.Listen.FramedCall.{
  Watch, unwatched, unwatching, watching, FramedCall, ReplyWorld, end_error, peer, finish_from,
  finish_watching, put_reply, checked_reply, watched_reply, reply,
}

end_error-none :
    (c : Option Err) (late : Bool) (e : Option Err)
    → end_error c late e ≡ none
    → (c ≡ none) × (e ≡ none)
unfolding end_error
end_error-none none late none h = (refl, refl)
end_error-none none late (some x) h = cc
end_error-none (some x) late e h = cc

abbrev IsPeer : Answer → Type 0
IsPeer (refused e) = ⊥
IsPeer (answered p) = Unit

-- The caller hung up: the stream ended, and there was no byte before its end.
abbrev pub HungUp : Input → Type 0
HungUp i = (i.pending ≡ []) × (is i.ending eof ≡ true)

-- Behind a byte, waitFrameEOF reports an error.
refused_behind : (b : ℕ) (rest : Input) → wait_frame_eof_after (one b rest) ≢ none
unfolding wait_frame_eof_after
refused_behind b rest h = elim (Bool-cases (b == 255)) [
  | inr other ↦ absurd (ground (arith, h, other))
  | inl ff ↦ behind_ff ff (read_full 3 rest) refl
]
  where
    behind_ff : (b == 255) ≡ true → (x : Full) → read_full 3 rest ≡ x → ⊥
    behind_ff ff (short n e) q = ground (arith, h, ff, q)
    behind_ff ff (full [] r) q = ground (arith, h, ff, q)
    behind_ff ff (full (c ∷ []) r) q = ground (arith, h, ff, q)
    behind_ff ff (full (c ∷ d ∷ []) r) q = ground (arith, h, ff, q)
    behind_ff ff (full (c ∷ d ∷ e ∷ l) r) q = ground (arith, h, ff, q)

wait_frame_eof-HungUp : (i : Input) → wait_frame_eof i ≡ none → HungUp i
unfolding wait_frame_eof wait_frame_eof_after read_one
wait_frame_eof-HungUp i h = at_pending i.pending refl
  where
    at_pending : (p : List ℕ) → i.pending ≡ p → HungUp i
    at_pending [] q = (q, ground (arith, h, q))
    at_pending (b ∷ bs) q =
        absurd
          (refused_behind b (record { pending = bs; ending = i.ending }) (ground (arith, h, q)))

module _ {S : Type 0} (w : Writer S) (log : S → List ℕ)
    (contract : (s : S) (part : List ℕ) → Took w log s part) (v : ReplyWorld) (frame : List ℕ) where
  -- The frame fits, and the writer took its header and all of it, in one writing; the caller hung up
  -- behind it without a byte more, before the context ended.
  pub record IsPut (k k' : FramedCall S) : Type 0 where
    pub fits : length frame ≤ k.limit
    pub written : log k'.writer ≡ log k.writer ++ (put_uint32 (length frame) ++ frame)
    pub once : k'.writes ≡ k.writes + 1
    pub drained : HungUp v.input
    pub context_end : v.context_end ≡ none

  write_frame-written :
      (limit : ℕ) (s : S)
      → ltb limit (length frame) ≡ false
      → (write_frame w frame limit s).error ≡ none
      → log (write_frame w frame limit s).state ≡ log s ++ (put_uint32 (length frame) ++ frame)
  unfolding write_frame
  write_frame-written limit s fits ok =
      let bytes = put_uint32 (length frame) ++ frame in
      let (few, logged, all) = write_headed_count-log w log contract (length frame) frame s in
      let done : (write_headed_count w (length frame) frame s).error ≡ none =
        ground (arith, ok, fits) in
      rw fits (elim all [
        | inl bad ↦ absurd (bad done)
        | inr whole ↦ logged ∙ ap (λ t. log s ++ t) (take-length _ bytes (omega (arith, whole)))
      ])

  IsPut-done :
      (k : FramedCall S)
      → (put_reply w k v frame).reply_error ≡ none
      → IsPut k (put_reply w k v frame)
  unfolding put_reply
  IsPut-done k h = elim (Bool-cases (ltb k.limit (length frame))) [
    | inl over ↦
        let bad =
          end_error-none v.context_end v.late (some (sentinel frame_too_large)) (ground arith) in
        cc (bad.1)
    | inr fits ↦ elim (Option-cases (write_frame w frame k.limit k.writer).error) [
      | inr (x, bad) ↦
          let no = end_error-none v.context_end v.late (some x) (ground arith) in cc (no.1)
      | inl ok ↦
          let (context, drained) =
            end_error-none v.context_end v.late (wait_frame_eof v.input) (ground arith) in
          let all = write_frame-written k.limit k.writer fits ok in
          record {
            fits = ground arith;
            written = simp fits all;
            once = simp fits refl;
            drained = wait_frame_eof-HungUp v.input drained;
            context_end = context;
          }
    ]
  ]

  -- The call was open, its context had not ended, and the binding was open with nothing found
  -- against it.
  pub record IsAnswered (k : FramedCall S) : Type 0 where
    pub open_ : k.closed ≡ false
    pub context : k.context ≡ none
    pub bound_open : k.bound.closed ≡ false
    pub found : v.recheck ≡ none

  peer-IsAnswered :
      (k : FramedCall S) (p : Answer) → (peer w k v.recheck).1 ≡ p → IsPeer p → IsAnswered k
  unfolding peer peer_of
  peer-IsAnswered k (refused e) h i = absurd i
  peer-IsAnswered k (answered p) h i = record {
    open_ = ground arith;
    context = ground arith;
    bound_open = ground arith;
    found = ground arith;
  }

  checked_done :
      (x : FramedCall S × Answer)
      → (checked_reply w x v frame).reply_error ≡ none
      → IsPeer x.1 × IsPut x.0 (checked_reply w x v frame)
  unfolding checked_reply
  checked_done (k, refused e) h = cc
  checked_done (k, answered p) h = (tt, IsPut-done k h)

  -- A recheck leaves the limit, the writer and the count as they are.
  peer_keeps :
      (k : FramedCall S) (answer : Option Err)
      → let k' = (peer w k answer).0 in
        (k'.limit ≡ k.limit) × (k'.writer ≡ k.writer) × (k'.writes ≡ k.writes)
  unfolding peer
  peer_keeps k answer = elim (Bool-cases k.closed) [
    | inl shut ↦ (ground arith, ground arith, ground arith)
    | inr open_ ↦ elim (Option-cases k.context) [
      | inl running ↦ (ground arith, ground arith, ground arith)
      | inr (e, over) ↦ (ground arith, ground arith, ground arith)
    ]
  ]

  peer-IsPut : (k k' : FramedCall S) → IsPut (peer w k v.recheck).0 k' → IsPut k k'
  peer-IsPut k k' i =
      let (limit, writer, writes) = peer_keeps k v.recheck in
      record {
        fits = omega (arith, limit, i.fits);
        written = i.written ∙ ap (λ s. log s ++ (put_uint32 (length frame) ++ frame)) writer;
        once = omega (arith, writes, i.once);
        drained = i.drained;
        context_end = i.context_end;
      }

  watched_done :
      (x : FramedCall S × Option Err)
      → (watched_reply w x v frame).reply_error ≡ none
      → (x.1 ≡ none) × IsAnswered x.0 × IsPut x.0 (watched_reply w x v frame)
  unfolding watched_reply
  watched_done (k, some e) h = cc ((end_error-none k.context v.late (some e) h).1)
  watched_done (k, none) h =
      let (i, p) = checked_done (peer w k v.recheck) h in
      (refl, peer-IsAnswered k (peer w k v.recheck).1 refl i, peer-IsPut k _ p)

  finish_same :
      (m : Watch) (k k' : FramedCall S)
      → (finish_from w m k v).1 ≡ none
      → IsAnswered (finish_from w m k v).0 × IsPut (finish_from w m k v).0 k'
      → IsAnswered k × IsPut k k'
  unfolding finish_from
  finish_same unwatched k k' h (i, p) = (
    record { open_ = i.open_; context = i.context; bound_open = i.bound_open; found = i.found },
    record {
      fits = p.fits;
      written = p.written;
      once = p.once;
      drained = p.drained;
      context_end = p.context_end;
    },
  )
  finish_same unwatching k k' h j = j
  finish_same watching k k' h j = elim (Option-cases v.interrupt) [
    | inr (e, bad) ↦ absurd (ground arith)
    | inl ok ↦ elim (Option-cases v.restore) [
      | inr (e, bad) ↦ absurd (ground arith)
      | inl fine ↦
          let same : (finish_from w watching k v).0 ≡ k = ground arith in
          subst (λ t. IsAnswered t × IsPut t k') same j
    ]
  ]

  -- On a connection that keeps the contract of io.Writer, a first Reply that reports no error found
  -- the call open and its context running, its binding open and the platform finding nothing against
  -- it. The frame was within the limit, and behind what the connection had taken before it took the
  -- frame's length and the whole frame, in one writing. The caller then hung up without sending a
  -- byte, before the context ended.
  pub reply_done :
      (k : FramedCall S)
      → k.replied ≡ false
      → (reply w k v frame).reply_error ≡ none
      → IsAnswered k × IsPut k (reply w k v frame)
  unfolding reply finish_watching
  reply_done k fresh h =
      let x = finish_from w k.watch k v in
      let (e, i, p) = watched_done x (ground arith) in
      let (answered_, put_) = finish_same k.watch k (watched_reply w x v frame) e (i, p) in
      (
        answered_,
        simp fresh (record {
          fits = put_.fits;
          written = put_.written;
          once = put_.once;
          drained = put_.drained;
          context_end = put_.context_end;
        }),
      )
