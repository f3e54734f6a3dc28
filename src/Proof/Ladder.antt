-- ===== src/Proof/Ladder.antt =====
-- What `AtLeast` gives and refuses, and that a printed step of the ladder names one step only.
use abstraction_identity.Base.{
  Bool-cases, inl, inr, ℕ, zero, suc, ◌≤◌, ◌<◌, ◌≡◌, refl, ◌↔◌, ◌⊎◌, Bool, true, ◌&&◌, arith,
  str_eq, eq→str_eq, ◌==◌, not, ◌||◌,
}
use abstraction_identity.Proof.{
  Proof, proof_none, proof_string, ProofError, Attr, proven, unproven, at_least,
}

-- AtLeast hands out the attribute's value exactly when its proof reaches the minimum and is above
-- none.
pub at_least_iff {ℓ} :
    {T : Type ℓ} (a : Attr T) (min : Proof)
    → ((at_least a min ≡ proven a.value) ↔ ((min ≤ a.proof) × (proof_none < a.proof)))
unfolding at_least
at_least_iff a min = (λ h. ground arith, λ h. ground arith)

-- When AtLeast refuses, the proof is below the minimum or is none, and the error names the
-- attribute, the minimum, the proof had and the platform's reason.
pub at_least_refused {ℓ} :
    {T : Type ℓ} (a : Attr T) (min : Proof) (e : ProofError)
    → at_least a min ≡ unproven e
    → ((a.proof < min) ⊎ (a.proof ≡ proof_none))
      × (e.attribute ≡ a.name)
      × (e.want ≡ min)
      × (e.got ≡ a.proof)
      × (e.why ≡ a.why)
unfolding at_least
at_least_refused a min e h = ground arith

names_differ : ℕ → ℕ → Bool
names_differ p q = p == q || not (str_eq (proof_string p) (proof_string q))

holds_up_to : (ℕ → Bool) → ℕ → Bool
holds_up_to test zero = test zero
holds_up_to test (suc top) = holds_up_to test top && test (suc top)

holds_up_to_lem :
    (test : ℕ → Bool) (top k : ℕ) → holds_up_to test top ≡ true → k ≤ top → test k ≡ true
unfolding holds_up_to
holds_up_to_lem test zero k good within = let first : k ≡ 0 = omega arith in rw first good
holds_up_to_lem test (suc top) k good within = elim (Bool-cases (k == suc top)) [
  | inl last ↦ let at_end : k ≡ suc top = ground arith in rw at_end (ground arith)
  | inr before ↦ holds_up_to_lem test top k (ground arith) (ground arith)
]

names_table : holds_up_to (λ p. holds_up_to (names_differ p) 255) 255 ≡ true
unfolding holds_up_to names_differ proof_string
names_table = refl

differ_lem : (p q : Proof) → names_differ p q ≡ true → proof_string p ≡ proof_string q → p ≡ q
unfolding names_differ
differ_lem p q h e = ground (arith, eq→str_eq (proof_string p) (proof_string q) e)

-- Two values of the uint8 type print alike only if they are equal.
pub proof_string_injective :
    (p q : Proof) → p < 256 → q < 256 → proof_string p ≡ proof_string q → p ≡ q
proof_string_injective p q hp hq e =
    let row : holds_up_to (names_differ p) 255 ≡ true =
      holds_up_to_lem (λ r. holds_up_to (names_differ r) 255) 255 p names_table (omega arith) in
    differ_lem p q (holds_up_to_lem (names_differ p) 255 q row (omega arith)) e
