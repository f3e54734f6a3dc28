-- ===== src/Api/Decoded.antt =====
-- Whole records that were written are read back.
use abstraction_identity.Base.{
  ℕ, suc, ◌+◌, ◌<◌, ◌≡◌, refl, sym, ap, ◌∙◌, true, [], ◌∷◌, ◌++◌, false, ltb, Str, codes, length,
  some, none, arith,
}
use mathlib.Core.List.{append_assoc}
use abstraction_identity.Api.Write.{esc_byte, esc_bytes, esc}
use abstraction_identity.Api.Utf8.{valid_utf8}
use abstraction_identity.Api.Read.{got, Reading, ◌>>=◌, ◌>>◌, skip_ws, ws, expect}
use abstraction_identity.Api.Words.{word_of, known, at_end}
use abstraction_identity.Api.Records.{
  ProofRequirement, enc_field, enc_end, enc_requirement, all_known, encode, RequirementDraft, fresh,
  requirement_field, member_key, depth_limit, one_member, members, inside, object, required,
  checked, requirement_of, decode_requirement, decode_buffer, decode,
}
use abstraction_identity.Api.RoundTrip.{skip_ws-esc, word_value-esc, members-next, members-last}

skip_ws_idem : (s : Str) → skip_ws (skip_ws s) ≡ skip_ws s
unfolding skip_ws
skip_ws_idem [] = refl
skip_ws_idem (c ∷ s) = ground (arith, skip_ws_idem s)

pub enc_field-append :
    (depth : ℕ) (key value tail rest : Str)
    → enc_field depth key value tail ++ rest ≡ enc_field depth key value (tail ++ rest)
unfolding enc_field
enc_field-append depth key value tail rest = simp append_assoc

skip_ws-enc_field :
    (depth : ℕ) (key value tail : Str)
    → skip_ws (enc_field depth key value tail) ≡ esc key ++ (b':' ∷ b' ' ∷ (esc value ++ tail))
unfolding enc_field skip_ws
skip_ws-enc_field depth key value tail =
    skip_ws-esc (suc depth) key (b':' ∷ b' ' ∷ (esc value ++ tail))

module _ (total : ℕ) {D : Type 0} (field : Str → D → Reading D) where
  one_member-skip_ws :
      (d : D) (s : Str) → one_member total field d (skip_ws s) ≡ one_member total field d s
  unfolding one_member
  one_member-skip_ws d s =
      ap
        (λ (t : Str).
          (member_key total >>= λ key.
          ws >> (expect total b':' (codes "malformed") >> (ws >> field key d)))
            t)
        (skip_ws_idem s)

  members-skip_ws :
      (fuel : ℕ) (d : D) (s : Str)
      → members total field (suc fuel) d (skip_ws s) ≡ members total field (suc fuel) d s
  unfolding members
  members-skip_ws fuel d s = rw (one_member-skip_ws d s, ◌>>=◌) refl

  module _ (depth : ℕ) (d d' : D) (key value tail rest : Str) where
    abbrev pub text : Str
    text = esc key ++ (b':' ∷ b' ' ∷ (esc value ++ tail))

    inside-members :
        inside total field d text
        ≡ members total field (suc (length text)) d (enc_field depth key value tail)
    unfolding inside esc
    inside-members =
        ap (λ (t : Str). members total field (suc (length text)) d t)
          (sym (skip_ws-enc_field depth key value tail))
        ∙ members-skip_ws (length text) d (enc_field depth key value tail)

    -- An object whose members are read whole.
    pub object-members :
        depth < 64
        → members total field (suc (length text)) d (enc_field depth key value tail)
          ≡ got d' (b'}' ∷ rest)
        → object total field depth d (b'{' ∷ enc_field depth key value tail) ≡ got d' rest
    unfolding object expect
    object-members h e =
        rw (shallow)
          (rw (skip_ws-enc_field depth key value tail) (rw (inside-members ∙ e, ◌>>=◌) refl))
      where
        shallow : ltb depth_limit (depth + 1) ≡ false
        shallow = ground arith

module _ (v : ProofRequirement) (depth : ℕ) where
  -- A requirement's text behind its brace, up to the last value, and what follows that.
  abbrev requirement_text : Str → Str
  requirement_text tail = enc_field depth (codes "user") (word_of v.user) (
      b','
      ∷ enc_field depth (codes "process") (word_of v.process) (
          b','
          ∷ enc_field depth (codes "path") (word_of v.path) (
              b','
              ∷ enc_field depth (codes "package") (word_of v.package_)
                  (b',' ∷ enc_field depth (codes "code") (word_of v.code) tail))))

  enc_requirement_lem :
      all_known v ≡ true → enc_requirement v depth ≡ some (b'{' ∷ requirement_text (enc_end depth))
  unfolding enc_requirement
  enc_requirement_lem h = rw h refl

  text-append :
      (rest : Str)
      → (b'{' ∷ requirement_text (enc_end depth)) ++ rest
        ≡ b'{' ∷ requirement_text (enc_end depth ++ rest)
  text-append rest = simp enc_field-append

module _ (total : ℕ) where
  module _ (v : ProofRequirement) (depth : ℕ) (rest : Str) (h : all_known v ≡ true) where
    members_requirement :
        (fuel : ℕ)
        → members total
            (requirement_field total)
            (suc (suc (suc (suc (suc fuel)))))
            (record { user = none; process = none; path = none; package_ = none; code = none })
            (requirement_text v depth (enc_end depth ++ rest))
          ≡ got
              (record {
                user = some v.user;
                process = some v.process;
                path = some v.path;
                package_ = some v.package_;
                code = some v.code;
              })
              (b'}' ∷ rest)
    unfolding requirement_field fresh all_known valid_utf8
    members_requirement fuel =
        members-next total field depth (codes "user") (word_of v.user) refl _ _ _ _
          (word_value-esc total _ v.user _ knowns.0)
        ∙ members-next total field depth (codes "process") (word_of v.process) refl _ _ _ _
            (word_value-esc total _ v.process _ knowns.1)
        ∙ members-next total field depth (codes "path") (word_of v.path) refl _ _ _ _
            (word_value-esc total _ v.path _ knowns.2)
        ∙ members-next total field depth (codes "package") (word_of v.package_) refl _ _ _ _
            (word_value-esc total _ v.package_ _ knowns.3)
        ∙ members-last total field depth (codes "code") (word_of v.code) refl _ _ fuel rest
            (word_value-esc total _ v.code _ knowns.4)
      where
        field : Str → RequirementDraft → Reading RequirementDraft
        field = requirement_field total

        knowns :
            (known v.user ≡ true)
            × (known v.process ≡ true)
            × (known v.path ≡ true)
            × (known v.package_ ≡ true)
            × (known v.code ≡ true)
        knowns = (ground arith, ground arith, ground arith, ground arith, ground arith)

    decode_text :
        depth < 64
        → decode_requirement total depth (b'{' ∷ requirement_text v depth (enc_end depth ++ rest))
          ≡ got v rest
    unfolding decode_requirement requirement_of checked required esc esc_bytes esc_byte
    decode_text d =
        rw
          (
            object-members total (requirement_field total) depth _ _ (codes "user") (word_of v.user)
                _ rest d (members_requirement _),
            ◌>>=◌,
          )
          (rw h refl)

  decode_buffer-text :
      (v : ProofRequirement)
      → all_known v ≡ true
      → decode_buffer total (b'{' ∷ requirement_text v 0 (enc_end 0 ++ (b'\n' ∷ []))) ≡ got v []
  unfolding decode_buffer skip_ws at_end
  decode_buffer-text v h = rw (decode_text v 0 (b'\n' ∷ []) h (omega arith), ◌>>=◌) refl

module _ (v : ProofRequirement) where
  -- A requirement whose five values are members is written, and the text that Encode writes is read
  -- by Decode as the same requirement, with nothing left over.
  pub decode-encode : all_known v ≡ true → (t : Str) × (encode v ≡ some t) × (decode t ≡ got v [])
  unfolding encode decode
  decode-encode h =
      let body = b'{' ∷ requirement_text v 0 (enc_end 0) in
      let t = body ++ (b'\n' ∷ []) in
      (
        t,
        rw (enc_requirement_lem v 0 h, encode) refl,
        ap (decode_buffer (length t)) (text-append v 0 (b'\n' ∷ []))
            ∙ decode_buffer-text (length t) v h,
      )
