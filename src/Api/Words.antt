-- ===== src/Api/Words.antt =====
-- go/abstraction/identity/api/rec.go: the closed vocabulary `Proof`, its wire words, and its JSON
-- and text forms. A value is a uint32, of which 1 to 9 are members.
use abstraction_identity.Base.{
  ℕ, Bool, List, [], ◌∷◌, ◌==◌, if◌then◌else◌, Str, codes, str_eq, is_empty, length, Option, none,
  some,
}
use abstraction_identity.Api.Write.{esc}
use abstraction_identity.Api.Read.{Read, got, Reading, ◌>>=◌, ◌>>◌, give, ws, refuse, str}

-- The members with their words, in the order of the constants.
abbrev pub proof_words : List (ℕ × Str)
proof_words =
    (1, codes "none")
    ∷ (2, codes "claimed")
    ∷ (3, codes "invalid")
    ∷ (4, codes "unsigned")
    ∷ (5, codes "unmet")
    ∷ (6, codes "pid")
    ∷ (7, codes "bound")
    ∷ (8, codes "kernel")
    ∷ (9, codes "signed")
    ∷ []

unfoldable pub word_in : List (ℕ × Str) → ℕ → Option Str
word_in [] v = none
word_in ((p, w) ∷ rest) v = if p == v then some w else word_in rest v

unfoldable pub value_in : List (ℕ × Str) → Str → Option ℕ
value_in [] word = none
value_in ((p, w) ∷ rest) word = if str_eq w word then some p else value_in rest word

-- `WireName`
unfoldable pub wire_name : ℕ → Option Str
unfolding word_in
wire_name v = word_in proof_words v

-- `ParseProof`
unfoldable pub parse_proof : Str → Option ℕ
unfolding value_in
parse_proof word = value_in proof_words word

-- `Proof.String`
unfoldable pub word_of : ℕ → Str
word_of v = elim (wire_name v) [ some w ↦ w | none ↦ [] ]

-- `Known`
unfoldable pub known : ℕ → Bool
known v = elim (wire_name v) [ some w ↦ Bool.true | none ↦ Bool.false ]

-- `MarshalJSON`; `none` is its refusal.
unfoldable pub marshal_json : ℕ → Option Str
marshal_json v = elim (wire_name v) [ some w ↦ some (esc w) | none ↦ none ]

-- A word that has to name a member.
unfoldable pub member_of : (total : ℕ) → Str → Reading ℕ
member_of total word = elim (parse_proof word) [
  | some p ↦ give p
  | none ↦ refuse total (codes "bad_enum")
]

-- The end of the text, which has to be reached.
unfoldable pub at_end : (total : ℕ) → Reading (Unit {0})
at_end total s = if is_empty s then got tt s else refuse total (codes "trailing_bytes") s

-- `UnmarshalJSON`
unfoldable pub unmarshal_json : Str → Read ℕ
unmarshal_json text =
    let total = length text in
    (do ws; word ← str total; ws; at_end total; member_of total word) text
