-- ===== src/Listen/Refusal.antt =====
-- listen/proof_refusal.go: the terminal refusal, six bytes that name an attribute and a rung.
pub mod Tokens
use abstraction_identity.Base.{
  ℕ, zero, suc, ◌+◌, ◌≤◌, ◌<◌, ◌≡◌, ◌≢◌, refl, Bool, true, false, not, ◌&&◌, ◌||◌, List, [], ◌∷◌,
  ◌++◌, ltb, leb, ◌==◌, if◌then◌else◌, Str, codes, str_eq, length, get_elem?, Option, none, some,
  arith,
}
use abstraction_identity.Proof.{Proof, proof_none, proof_signed, ProofError}
use abstraction_identity.Errors.{
  Err, sentinel, proof_refusal_protocol, refusal, ProofRefusal, as_proof_error,
}
use abstraction_identity.Listen.Wire.{proof_refusal_header, put_uint32}
use abstraction_identity.Listen.Stream.{Input, Full, full, short, read_full}

-- `proofAttributes`
abbrev pub proof_attributes : List Str
proof_attributes =
    [] ∷ codes "user" ∷ codes "process" ∷ codes "path" ∷ codes "package" ∷ codes "code" ∷ []

-- The loop of `proofRefusalBytes`: the first token other than 0 whose name is the attribute's, if
-- the rung is one that a policy can ask for.
unfoldable pub find_token : ℕ → List Str → ProofError → Option (ℕ × ℕ)
find_token i [] e = none
find_token i (name ∷ names) e =
    if str_eq e.attribute name
      && (not (i == 0) && (ltb proof_none e.want && leb e.want proof_signed))
    then some (i, e.want)
    else find_token (i + 1) names e

-- The two token bytes of `proofRefusalBytes`; they stay 0 where nothing is found.
unfoldable pub refusal_tokens : Err → ℕ × ℕ
refusal_tokens err = elim (as_proof_error err) [
  | none ↦ (0, 0)
  | some e ↦ elim (find_token 0 proof_attributes e) [ none ↦ (0, 0) | some t ↦ t ]
]

-- `proofRefusalBytes`
unfoldable pub proof_refusal_bytes : Err → List ℕ
unfolding refusal_tokens
proof_refusal_bytes err =
    put_uint32 proof_refusal_header ++ ((refusal_tokens err).0 ∷ (refusal_tokens err).1 ∷ [])

abbrev pub same_bool : Bool → Bool → Bool
same_bool true b = b
same_bool false b = not b

-- The tokens of a refusal, checked: both 0, or both in the vocabulary.
unfoldable pub parse_tokens : ℕ → ℕ → Err
parse_tokens attribute required =
    if leb 6 attribute
      || (ltb proof_signed required || not (same_bool (attribute == 0) (required == 0)))
    then sentinel proof_refusal_protocol
    else elim (get_elem? proof_attributes attribute) [
      | some name ↦ refusal (record { attribute = name; required = required })
      | none ↦ sentinel proof_refusal_protocol
    ]

pub parse_read : List ℕ → Err
parse_read (attribute ∷ required ∷ _) = parse_tokens attribute required
parse_read _ = sentinel proof_refusal_protocol

-- `readProofRefusal`
unfoldable pub read_proof_refusal : Input → Err
read_proof_refusal i = elim (read_full 2 i) [ short n e ↦ e | full tokens rest ↦ parse_read tokens ]
