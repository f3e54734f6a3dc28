-- ===== src/Api/RoundTrip.antt =====
-- The records that were written are read back.
use abstraction_identity.Base.{
  ℕ, zero, suc, ◌≡◌, refl, true, [], ◌∷◌, ◌++◌, ◌==◌, Str, some, arith, All, List, Bool-cases,
  Option-cases, inl, inr, ==_iff,
}
use mathlib.Core.Path.{subst}
use mathlib.Core.List.{append_assoc}
use abstraction_identity.Api.Write.{esc_bytes, esc, pad}
use abstraction_identity.Api.Utf8.{valid_utf8}
use abstraction_identity.Api.Read.{got, Reading, ◌>>=◌, ◌>>◌, skip_ws, expect}
use abstraction_identity.Api.Strings.{str-esc}
use abstraction_identity.Api.Words.{
  proof_words, word_in, value_in, wire_name, parse_proof, word_of, known, member_of,
}
use abstraction_identity.Api.Records.{
  enc_field, enc_end, member_key, word_value, text_value, one_member, members,
}

-- What a member and its word are to each other.
abbrev Names : ℕ × Str → Type 0
Names (v, w) = (parse_proof w ≡ some v) × (valid_utf8 w ≡ true)

word_in-Names :
    (l : List (ℕ × Str)) (v : ℕ) (w : Str) → All Names l → word_in l v ≡ some w → Names (v, w)
unfolding word_in
word_in-Names [] v w a h = cc
word_in-Names ((p, x) ∷ l) v w a h = elim (Bool-cases (p == v)) [
  | inl e ↦
      let ew : x ≡ w = ground arith in
      subst (λ (t : Str). Names (v, t)) ew (subst (λ (q : ℕ). Names (q, x)) ((==_iff p v).0 e) a.0)
  | inr e ↦ word_in-Names l v w a.1 (ground arith)
]

proof_words-Names : All Names proof_words
unfolding parse_proof value_in valid_utf8
proof_words-Names = (
  (refl, refl),
  (
    (refl, refl),
    (
      (refl, refl),
      (
        (refl, refl),
        ((refl, refl), ((refl, refl), ((refl, refl), ((refl, refl), ((refl, refl), tt))))),
      ),
    ),
  ),
)

-- A member's word names it, and is plain text.
known-word : (v : ℕ) → known v ≡ true → Names (v, word_of v)
unfolding known word_of wire_name
known-word v h = elim (Option-cases (word_in proof_words v)) [
  | inl e ↦ absurd (ground arith)
  | inr (w, e) ↦ rw (e, word_of, wire_name) (word_in-Names proof_words v w proof_words-Names e)
]

skip_ws-pad : (n : ℕ) (s : Str) → skip_ws (pad n ++ (b'"' ∷ s)) ≡ b'"' ∷ s
unfolding skip_ws pad
skip_ws-pad zero s = refl
skip_ws-pad (suc n) s = skip_ws-pad n s

skip_ws-pad_end : (n : ℕ) (s : Str) → skip_ws (pad n ++ (b'}' ∷ s)) ≡ b'}' ∷ s
unfolding skip_ws pad
skip_ws-pad_end zero s = refl
skip_ws-pad_end (suc n) s = skip_ws-pad_end n s

pub skip_ws-esc : (n : ℕ) (s x : Str) → skip_ws (pad n ++ (esc s ++ x)) ≡ esc s ++ x
unfolding esc
skip_ws-esc n s x = skip_ws-pad n ((esc_bytes s ++ (b'"' ∷ [])) ++ x)

skip_ws-quote : (s x : Str) → skip_ws (esc s ++ x) ≡ esc s ++ x
unfolding skip_ws esc
skip_ws-quote s x = refl

pub skip_ws-end : (depth : ℕ) (tail : Str) → skip_ws (enc_end depth ++ tail) ≡ b'}' ∷ tail
unfolding skip_ws enc_end
skip_ws-end depth tail = rw (append_assoc (pad depth) (b'}' ∷ []) tail) (skip_ws-pad_end depth tail)

module _ (total : ℕ) where
  pub word_value-esc :
      {D : Type 0} (put : ℕ → D) (v : ℕ) (tail : Str)
      → known v ≡ true
      → word_value total put (esc (word_of v) ++ tail) ≡ got (put v) tail
  unfolding word_value member_of
  word_value-esc put v tail h =
      rw (str-esc total (word_of v) tail (known-word v h).1, ◌>>=◌)
        (rw ((known-word v h).0, member_of) refl)

  pub text_value-esc :
      {D : Type 0} (put : Str → D) (s tail : Str)
      → valid_utf8 s ≡ true
      → text_value total put (esc s ++ tail) ≡ got (put s) tail
  unfolding text_value
  text_value-esc put s tail h = rw (str-esc total s tail h, ◌>>=◌) refl

  member_key-esc :
      (s tail : Str) → valid_utf8 s ≡ true → member_key total (esc s ++ tail) ≡ got s tail
  unfolding member_key esc
  member_key-esc s tail h = str-esc total s tail h

  module _ {D : Type 0} (field : Str → D → Reading D) (depth : ℕ) (key value : Str)
      (plain : valid_utf8 key ≡ true) (d d' : D) where
    one_member-enc :
        (tail : Str)
        → field key d (esc value ++ tail) ≡ got d' tail
        → one_member total field d (enc_field depth key value tail) ≡ got d' tail
    unfolding one_member enc_field skip_ws expect
    one_member-enc tail h =
        let after = b':' ∷ b' ' ∷ (esc value ++ tail) in
        rw (skip_ws-esc (suc depth) key after) (
          rw (member_key-esc key after plain, ◌>>=◌) (rw (skip_ws-quote value tail, ◌>>◌, ◌>>=◌) h))

    pub members-next :
        (fuel : ℕ) (tail : Str)
        → field key d (esc value ++ (b',' ∷ tail)) ≡ got d' (b',' ∷ tail)
        → members total field (suc fuel) d (enc_field depth key value (b',' ∷ tail))
          ≡ members total field fuel d' tail
    unfolding members skip_ws
    members-next fuel tail h = rw (one_member-enc (b',' ∷ tail) h, ◌>>=◌) refl

    pub members-last :
        (fuel : ℕ) (tail : Str)
        → field key d (esc value ++ (enc_end depth ++ tail)) ≡ got d' (enc_end depth ++ tail)
        → members total field (suc fuel) d (enc_field depth key value (enc_end depth ++ tail))
          ≡ got d' (b'}' ∷ tail)
    unfolding members
    members-last fuel tail h =
        rw (one_member-enc (enc_end depth ++ tail) h, ◌>>=◌)
          (rw (skip_ws-end depth tail, ◌>>◌, ◌>>=◌) (rw (skip_ws-end depth tail) refl))
