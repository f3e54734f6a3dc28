-- ===== src/Listen/Refusal/Tokens.antt =====
-- What the two token bytes of a refusal disclose of the error that it was made of.
use abstraction_identity.Base.{
  ℕ, ◌≡◌, refl, Bool, true, false, ◌&&◌, ◌||◌, List, [], ◌∷◌, ltb, leb, if◌then◌else◌, Str, codes,
  str_eq, str_eq→eq, none, some, arith, Option-cases, inl, inr,
}
use abstraction_identity.Proof.{proof_none, proof_signed, ProofError}
use abstraction_identity.Errors.{Err, refusal, ProofRefusal, as_proof_error}
use abstraction_identity.Listen.Stream.{full, read_full}
use abstraction_identity.Listen.Refusal.{
  proof_attributes, refusal_tokens, find_token, parse_tokens, parse_read, read_proof_refusal,
}

-- What a receiver tells of an error: the attribute and the rung of the first unmet requirement, if
-- both are in the fixed vocabulary, and neither otherwise.
abbrev in_vocabulary : Str → Bool
in_vocabulary a =
    str_eq a (codes "user")
    || (str_eq a (codes "process")
        || (str_eq a (codes "path") || (str_eq a (codes "package") || str_eq a (codes "code"))))

unfoldable pub disclosed : Err → ProofRefusal
disclosed err = elim (as_proof_error err) [
  | none ↦ record { attribute = []; required = proof_none }
  | some e ↦
      if in_vocabulary e.attribute && (ltb proof_none e.want && leb e.want proof_signed)
      then record { attribute = e.attribute; required = e.want }
      else record { attribute = []; required = proof_none }
]

abbrev allowed : ProofError → Bool
allowed e = in_vocabulary e.attribute && (ltb proof_none e.want && leb e.want proof_signed)

found :
    (e : ProofError) (a r : ℕ)
    → find_token 0 proof_attributes e ≡ some (a, r)
    → (allowed e ≡ true)
      × (parse_tokens a r ≡ refusal (record { attribute = e.attribute; required = e.want }))
unfolding find_token parse_tokens
found e a r h = ground (
  arith,
  str_eq→eq e.attribute (codes "user"),
  str_eq→eq e.attribute (codes "process"),
  str_eq→eq e.attribute (codes "path"),
  str_eq→eq e.attribute (codes "package"),
  str_eq→eq e.attribute (codes "code"),
)

unfound : (e : ProofError) → find_token 0 proof_attributes e ≡ none → allowed e ≡ false
unfolding find_token
unfound e h = ground arith

parse_tokens-zero : parse_tokens 0 0 ≡ refusal (record { attribute = []; required = proof_none })
unfolding parse_tokens
parse_tokens-zero = refl

pub parse_tokens-refusal :
    (err : Err)
    → parse_tokens (refusal_tokens err).0 (refusal_tokens err).1 ≡ refusal (disclosed err)
unfolding refusal_tokens disclosed
parse_tokens-refusal err = elim (Option-cases (as_proof_error err)) [
  | inl n ↦ ground (arith, parse_tokens-zero)
  | inr (e, q) ↦ elim (Option-cases (find_token 0 proof_attributes e)) [
    | inl n ↦ ground (arith, parse_tokens-zero, unfound e n)
    | inr ((a, r), t) ↦ ground (arith, found e a r t)
  ]
]

pub read_proof_refusal-tokens :
    (a r : ℕ) (rest : List ℕ) (e : Err)
    → read_full 2 (record { pending = a ∷ r ∷ rest; ending = e })
      ≡ full (a ∷ r ∷ []) (record { pending = rest; ending = e })
    → read_proof_refusal (record { pending = a ∷ r ∷ rest; ending = e }) ≡ parse_tokens a r
unfolding read_proof_refusal parse_read
read_proof_refusal-tokens a r rest e h = rw (h, read_proof_refusal)
