-- ===== src/Listen/Frame/RoundTrip.antt =====
-- What is read back of a frame, and of a refusal, that was written.
use abstraction_identity.Base.{
  ℕ, ◌≤◌, ◌≡◌, ◌∙◌, ap, List, [], ◌∷◌, ◌++◌, length, length-append, take-append_self,
  drop-append_self, arith, le→leb,
}
use abstraction_identity.Errors.{Err, refusal}
use abstraction_identity.Listen.Wire.{length_mask, put_uint32, uint32_put}
use abstraction_identity.Listen.Stream.{full, read_full}
use abstraction_identity.Listen.Refusal.Tokens.{
  disclosed, parse_tokens-refusal, read_proof_refusal-tokens,
}
use abstraction_identity.Listen.Refusal.{refusal_tokens, proof_refusal_bytes}
use abstraction_identity.Listen.Frame.{
  frame, no_frame, read_frame, read_after_header, read_frame_body,
}

pub read_full-append :
    (xs ys : List ℕ) (e : Err)
    → read_full (length xs) (record { pending = xs ++ ys; ending = e })
      ≡ full xs (record { pending = ys; ending = e })
unfolding read_full
read_full-append xs ys e = rw (
  le→leb (length xs) (length (xs ++ ys)) (omega (arith, length-append xs ys)),
  take-append_self xs ys,
  drop-append_self xs ys,
)

read_frame-header :
    (a b c d : ℕ) (ys : List ℕ) (e : Err) (limit : ℕ)
    → read_frame (record { pending = a ∷ b ∷ c ∷ d ∷ ys; ending = e }) limit
      ≡ read_after_header (a ∷ b ∷ c ∷ d ∷ []) (record { pending = ys; ending = e }) limit
unfolding read_frame
read_frame-header a b c d ys e limit = rw (read_full-append (a ∷ b ∷ c ∷ d ∷ []) ys e, read_frame)

pub read_body-append :
    (body rest : List ℕ) (e : Err) (limit : ℕ)
    → length body ≤ limit
    → limit ≤ length_mask
    → read_frame_body (record { pending = body ++ rest; ending = e }) (length body) limit
      ≡ frame body (record { pending = rest; ending = e })
unfolding read_frame_body
read_body-append body rest e limit fits small = ground (arith, read_full-append body rest e)

-- A frame within the limit, written with its length before it, is read back whole, and what
-- follows it stays in the stream. The limit is at most the largest length that a header holds.
pub read_frame-written :
    (body rest : List ℕ) (e : Err) (limit : ℕ)
    → length body ≤ limit
    → limit ≤ length_mask
    → read_frame (record { pending = put_uint32 (length body) ++ (body ++ rest); ending = e }) limit
      ≡ frame body (record { pending = rest; ending = e })
unfolding read_after_header
read_frame-written body rest e limit fits small =
    read_frame-header _ _ _ _ (body ++ rest) e limit
    ∙ rw (uint32_put (length body) (omega arith))
        (ground (arith, read_body-append body rest e limit fits small))

-- The six bytes that a receiver sends for an error are read back as a refusal that names exactly
-- what may be disclosed of it, under any limit and whatever follows them.
pub read_frame-refusal :
    (err : Err) (rest : List ℕ) (e : Err) (limit : ℕ)
    → read_frame (record { pending = proof_refusal_bytes err ++ rest; ending = e }) limit
      ≡ no_frame (refusal (disclosed err))
unfolding proof_refusal_bytes read_after_header
read_frame-refusal err rest e limit =
    let (a, r) = refusal_tokens err in
    read_frame-header 255 255 255 254 (a ∷ r ∷ rest) e limit
    ∙ ap no_frame (
        read_proof_refusal-tokens a r rest e (read_full-append (a ∷ r ∷ []) rest e)
        ∙ parse_tokens-refusal err)
