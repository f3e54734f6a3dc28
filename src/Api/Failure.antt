-- ===== src/Api/Failure.antt =====
-- A ProofFailure that was written is read back.
use abstraction_identity.Base.{
  ℕ, suc, ◌<◌, ◌≡◌, refl, ◌∙◌, true, ◌&&◌, ◌∷◌, ◌++◌, Str, codes, some, none, arith,
}
use abstraction_identity.Api.Write.{esc_byte, esc_bytes, esc}
use abstraction_identity.Api.Utf8.{valid_utf8}
use abstraction_identity.Api.Read.{got, Reading, ◌>>=◌}
use abstraction_identity.Api.Words.{word_of, known}
use abstraction_identity.Api.Records.{
  ProofFailure, enc_field, enc_end, enc_failure, FailureDraft, fresh, failure_field, members,
  required, failure_of, decode_failure,
}
use abstraction_identity.Api.RoundTrip.{word_value-esc, text_value-esc, members-next, members-last}
use abstraction_identity.Api.Decoded.{object-members, enc_field-append}

module _ (v : ProofFailure) (depth : ℕ) where
  -- A failure's text behind its brace, up to the last value, and what follows that.
  abbrev failure_text : Str → Str
  failure_text tail = enc_field depth (codes "attribute") v.attribute (
      b','
      ∷ enc_field depth (codes "have") (word_of v.have) (
          b','
          ∷ enc_field depth (codes "need") (word_of v.need)
              (b',' ∷ enc_field depth (codes "why") v.why tail)))

  text-append :
      (rest : Str)
      → (b'{' ∷ failure_text (enc_end depth)) ++ rest ≡ b'{' ∷ failure_text (enc_end depth ++ rest)
  text-append rest = simp enc_field-append

  module _ (total : ℕ) (rest : Str) (plain : valid_utf8 v.attribute ≡ true)
      (plain_why : valid_utf8 v.why ≡ true) (h : (known v.have && known v.need) ≡ true) where
    members_failure :
        (fuel : ℕ)
        → members total
            (failure_field total)
            (suc (suc (suc (suc fuel))))
            (record { attribute = none; have = none; need = none; why = none })
            (failure_text (enc_end depth ++ rest))
          ≡ got
              (record {
                attribute = some v.attribute;
                have = some v.have;
                need = some v.need;
                why = some v.why;
              })
              (b'}' ∷ rest)
    unfolding failure_field fresh valid_utf8
    members_failure fuel =
        members-next total field depth (codes "attribute") v.attribute refl _ _ _ _
          (text_value-esc total _ v.attribute _ plain)
        ∙ members-next total field depth (codes "have") (word_of v.have) refl _ _ _ _
            (word_value-esc total _ v.have _ (ground arith))
        ∙ members-next total field depth (codes "need") (word_of v.need) refl _ _ _ _
            (word_value-esc total _ v.need _ (ground arith))
        ∙ members-last total field depth (codes "why") v.why refl _ _ fuel rest
            (text_value-esc total _ v.why _ plain_why)
      where
        field : Str → FailureDraft → Reading FailureDraft
        field = failure_field total

    -- A failure whose two proofs are members and whose two texts are UTF-8 is written, and what was
    -- written is read as the same failure, with exactly what follows it left over, at any depth
    -- that the reader allows.
    pub decode_failure-enc_failure :
        depth < 64
        → (t : Str) × (enc_failure v depth ≡ some t)
          × (decode_failure total depth (t ++ rest) ≡ got v rest)
    unfolding enc_failure decode_failure failure_of required esc esc_bytes esc_byte
    decode_failure-enc_failure d = (
      b'{' ∷ failure_text (enc_end depth),
      rw h refl,
      rw (text-append rest) (
          rw
            (
              object-members total (failure_field total) depth _ _ (codes "attribute") v.attribute _
                  rest d (members_failure _),
              ◌>>=◌,
            )
            (rw h refl)),
    )
