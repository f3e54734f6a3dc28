-- ===== src/Api/Records.antt =====
-- go/abstraction/identity/api/rec.go: the records ProofRequirement and ProofFailure, written and
-- read. The generated decoders differ in their fields alone: `members` is their loop, over what a
-- field does.
use abstraction_identity.Base.{
  ℕ, zero, suc, ◌+◌, Bool, true, false, not, ◌&&◌, [], ◌∷◌, ◌++◌, ◌==◌, ltb, if◌then◌else◌, Str,
  codes, str_eq, length, drop, Option, none, some,
}
use abstraction_identity.Api.Write.{esc, pad}
use abstraction_identity.Api.Read.{
  Read, got, Reading, ◌>>=◌, ◌>>◌, give, at_byte, ws, refuse, expect, str,
}
use abstraction_identity.Api.Words.{known, word_of, member_of, at_end}

-- `ProofRequirement`
pub record ProofRequirement : Type 0 where
  pub user : ℕ
  pub process : ℕ
  pub path : ℕ
  pub package_ : ℕ
  pub code : ℕ

-- `ProofFailure`
pub record ProofFailure : Type 0 where
  pub attribute : Str
  pub have : ℕ
  pub need : ℕ
  pub why : Str

-- A field, on a line of its own.
unfoldable pub enc_field : (depth : ℕ) → (key value : Str) → Str → Str
enc_field depth key value tail =
    b'\n' ∷ (pad (suc depth) ++ (esc key ++ (b':' ∷ b' ' ∷ (esc value ++ tail))))

-- The end of a record
unfoldable pub enc_end : (depth : ℕ) → Str
enc_end depth = b'\n' ∷ (pad depth ++ (b'}' ∷ []))

unfoldable pub all_known : ProofRequirement → Bool
all_known v =
    known v.user && (known v.process && (known v.path && (known v.package_ && known v.code)))

-- `encProofRequirement`; `none` is its panic at a value that is no member.
unfoldable pub enc_requirement : ProofRequirement → (depth : ℕ) → Option Str
enc_requirement v depth =
    if all_known v
    then some (
        b'{'
        ∷ enc_field depth (codes "user") (word_of v.user) (
            b','
            ∷ enc_field depth (codes "process") (word_of v.process) (
                b','
                ∷ enc_field depth (codes "path") (word_of v.path) (
                    b','
                    ∷ enc_field depth (codes "package") (word_of v.package_)
                        (b',' ∷ enc_field depth (codes "code") (word_of v.code) (enc_end depth))))))
    else none

-- `encProofFailure`
unfoldable pub enc_failure : ProofFailure → (depth : ℕ) → Option Str
enc_failure v depth =
    if known v.have && known v.need
    then some (
        b'{'
        ∷ enc_field depth (codes "attribute") v.attribute (
            b','
            ∷ enc_field depth (codes "have") (word_of v.have) (
                b','
                ∷ enc_field depth (codes "need") (word_of v.need)
                    (b',' ∷ enc_field depth (codes "why") v.why (enc_end depth)))))
    else none

-- `Encode`
unfoldable pub encode : ProofRequirement → Option Str
encode v = elim (enc_requirement v 0) [ some s ↦ some (s ++ (b'\n' ∷ [])) | none ↦ none ]

-- A record while it is read: the fields that were seen.
pub record RequirementDraft : Type 0 where
  pub user : Option ℕ
  pub process : Option ℕ
  pub path : Option ℕ
  pub package_ : Option ℕ
  pub code : Option ℕ

pub record FailureDraft : Type 0 where
  pub attribute : Option Str
  pub have : Option ℕ
  pub need : Option ℕ
  pub why : Option Str

-- `depthLimit`
abbrev pub depth_limit : ℕ
depth_limit = 64

module _ (total : ℕ) where
  -- A field's value, where the field was not seen before.
  unfoldable pub fresh : {A B : Type 0} → Option A → Reading B → Reading B
  fresh (some x) read = refuse total (codes "duplicate_field")
  fresh none read = read

  unfoldable pub word_value : {D : Type 0} → (ℕ → D) → Reading D
  word_value put = do x ← str total; p ← member_of total x; give (put p)

  unfoldable pub text_value : {D : Type 0} → (Str → D) → Reading D
  text_value put = do x ← str total; give (put x)

  -- The switch of `decodeProofRequirement`
  unfoldable pub requirement_field : Str → RequirementDraft → Reading RequirementDraft
  requirement_field key d =
      if str_eq key (codes "user")
      then fresh d.user (word_value (λ p. record d { user = some p }))
      else if str_eq key (codes "process")
      then fresh d.process (word_value (λ p. record d { process = some p }))
      else if str_eq key (codes "path")
      then fresh d.path (word_value (λ p. record d { path = some p }))
      else if str_eq key (codes "package")
      then fresh d.package_ (word_value (λ p. record d { package_ = some p }))
      else if str_eq key (codes "code")
      then fresh d.code (word_value (λ p. record d { code = some p }))
      else refuse total (codes "unknown_field")

  -- The switch of `decodeProofFailure`
  unfoldable pub failure_field : Str → FailureDraft → Reading FailureDraft
  failure_field key d =
      if str_eq key (codes "attribute")
      then fresh d.attribute (text_value (λ x. record d { attribute = some x }))
      else if str_eq key (codes "have")
      then fresh d.have (word_value (λ p. record d { have = some p }))
      else if str_eq key (codes "need")
      then fresh d.need (word_value (λ p. record d { need = some p }))
      else if str_eq key (codes "why")
      then fresh d.why (text_value (λ x. record d { why = some x }))
      else refuse total (codes "unknown_field")

  -- A member's key
  unfoldable pub member_key : Reading Str
  member_key s = if at_byte s == b'"' then str total s else refuse total (codes "malformed") s

  module _ {D : Type 0} (field : Str → D → Reading D) where
    -- A key, its colon, and its value.
    unfoldable pub one_member : D → Reading D
    one_member d = do
      ws
      key ← member_key
      ws
      expect total b':' (codes "malformed")
      ws
      field key d

    -- The loop: each round takes a byte at least.
    unfoldable pub members : (fuel : ℕ) → D → Reading D
    members zero d s = refuse total (codes "malformed") s
    members (suc fuel) d s =
        (one_member d >>= λ d'. ws >> λ s'. elim (at_byte s' == b',') [
          | true ↦ members fuel d' (drop 1 s')
          | false ↦ got d' s'
        ])
          s

    -- What stands between the braces
    unfoldable pub inside : D → Reading D
    inside d s = if at_byte s == b'}' then got d s else members (suc (length s)) d s

    -- A whole object at `depth`: `enter`, its members, its closing brace.
    unfoldable pub object : (depth : ℕ) → D → Reading D
    object depth d s =
        if not (at_byte s == b'{')
        then refuse total (codes "wrong_type") s
        else if ltb depth_limit (depth + 1)
        then refuse total (codes "depth_exceeded") s
        else (do ws; d' ← inside d; expect total b'}' (codes "malformed"); give d') (drop 1 s)

  -- A field that has to be there
  unfoldable pub required : {A : Type 0} → Option A → Reading A
  required none = refuse total (codes "missing_field")
  required (some a) = give a

  unfoldable pub checked : ProofRequirement → Reading ProofRequirement
  checked v = if all_known v then give v else refuse total (codes "bad_enum")

  -- The end of `decodeProofRequirement`: every field was seen, and each is a member.
  unfoldable pub requirement_of : RequirementDraft → Reading ProofRequirement
  requirement_of d = do
    u ← required d.user
    p ← required d.process
    q ← required d.path
    a ← required d.package_
    c ← required d.code
    checked (record { user = u; process = p; path = q; package_ = a; code = c })

  unfoldable pub failure_of : FailureDraft → Reading ProofFailure
  failure_of d = do
    a ← required d.attribute
    h ← required d.have
    n ← required d.need
    w ← required d.why
    let v : ProofFailure = record { attribute = a; have = h; need = n; why = w }
    (if known h && known n then give v else refuse total (codes "bad_enum"))

  -- `decodeProofRequirement` and `decodeProofFailure`
  unfoldable pub decode_requirement : (depth : ℕ) → Reading ProofRequirement
  decode_requirement depth =
      object requirement_field depth
        (record { user = none; process = none; path = none; package_ = none; code = none })
      >>= requirement_of

  unfoldable pub decode_failure : (depth : ℕ) → Reading ProofFailure
  decode_failure depth =
      object failure_field depth (record { attribute = none; have = none; need = none; why = none })
      >>= failure_of

  -- `Decode` of a buffer of `total` bytes
  unfoldable pub decode_buffer : Reading ProofRequirement
  decode_buffer = do ws; v ← decode_requirement 0; ws; at_end total; give v

-- `Decode`
unfoldable pub decode : Str → Read ProofRequirement
decode text = decode_buffer (length text) text
