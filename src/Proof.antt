-- ===== src/Proof.antt =====
-- proof.go: the proof ladder, and an attribute of a peer welded to the proof of its value.
pub mod Ladder
use abstraction_identity.Base.{
  ℕ, zero, suc, ◌≤◌, ◌<◌, Bool, true, false, ◌&&◌, List, [], ◌∷◌, ◌++◌, ltb, leb, if◌then◌else◌,
  Str, codes, is_empty, decimal, get_elem?, Option, none, some,
}

-- `type Proof uint8`: any byte is a value of the type; the nine steps are 0 to 8.
abbrev pub Proof : Type 0
Proof = ℕ

abbrev pub proof_none : Proof
proof_none = 0

abbrev pub proof_claimed : Proof
proof_claimed = 1

abbrev pub proof_invalid : Proof
proof_invalid = 2

abbrev pub proof_unsigned : Proof
proof_unsigned = 3

abbrev pub proof_unmet : Proof
proof_unmet = 4

abbrev pub proof_pid : Proof
proof_pid = 5

abbrev pub proof_bound : Proof
proof_bound = 6

abbrev pub proof_kernel : Proof
proof_kernel = 7

abbrev pub proof_signed : Proof
proof_signed = 8

-- `proofNames`
abbrev pub proof_names : List Str
proof_names =
    codes "none"
    ∷ codes "claimed"
    ∷ codes "invalid"
    ∷ codes "unsigned"
    ∷ codes "unmet"
    ∷ codes "pid"
    ∷ codes "bound"
    ∷ codes "kernel"
    ∷ codes "signed"
    ∷ []

-- `Proof.String`
unfoldable pub proof_string : Proof → Str
unfolding decimal
proof_string p = elim (get_elem? proof_names p) [
  | some s ↦ s
  | none ↦ codes "Proof(" ++ (decimal p ++ codes ")")
]

-- `ProofError`: what was demanded, what was available, and the platform's reason.
pub record ProofError : Type 0 where
  pub attribute : Str
  pub want : Proof
  pub got : Proof
  pub why : Str

-- `ProofError.Error`
unfoldable pub proof_error_string : ProofError → Str
proof_error_string e =
    let s =
      codes "identity: "
      ++ (e.attribute
          ++ (codes " is proven only at \""
              ++ (proof_string e.got
                  ++ (codes "\", \"" ++ (proof_string e.want ++ codes "\" required"))))) in
    if is_empty e.why then s else s ++ (codes " (" ++ (e.why ++ codes ")"))

-- `Attr[T]`
pub record Attr {ℓ} (T : Type ℓ) : Type ℓ where
  pub name : Str
  pub value : T
  pub proof : Proof
  pub why : Str

-- What `(T, error)` carries when the error is a `*ProofError`.
pub data Proven {ℓ} (T : Type ℓ) : Type ℓ where
  proven : T → Proven T
  unproven : ProofError → Proven T

module _ {ℓ} {T : Type ℓ} where
  abbrev pub attr : Str → T → Proof → Str → Attr T
  attr name value proof why = record { name = name; value = value; proof = proof; why = why }

  -- `unknown` leaves the value at the type's zero value.
  abbrev pub unknown : T → Str → Str → Attr T
  unknown zero_value name why = record {
    name = name;
    value = zero_value;
    proof = proof_none;
    why = why;
  }

  -- `Attr.Known`
  abbrev pub known : Attr T → Bool
  known a = ltb proof_none a.proof

  -- `Attr.Get`
  abbrev pub get : Attr T → T × Proof
  get a = (a.value, a.proof)

  -- `Attr.AtLeast`
  unfoldable pub at_least : Attr T → Proof → Proven T
  at_least a min =
      if leb min a.proof && ltb proof_none a.proof
      then proven a.value
      else unproven (record { attribute = a.name; want = min; got = a.proof; why = a.why })

  -- `Attr.String`, over how the value is printed (`%v`).
  unfoldable pub attr_string : (T → Str) → Attr T → Str
  attr_string print a =
      if known a
      then a.name
        ++ (codes "=" ++ (print a.value ++ (codes "[" ++ (proof_string a.proof ++ codes "]"))))
      else if is_empty a.why
      then a.name ++ codes "=unknown"
      else a.name ++ (codes "=unknown(" ++ (a.why ++ codes ")"))
