-- ===== src/Api/Canonical.antt =====
-- What Decode accepts holds members only, so Encode writes it again.
use abstraction_identity.Base.{
  ℕ, ◌≡◌, refl, true, [], Str, length, Option, some, none, arith, Bool-cases, inl, inr,
}
use mathlib.Core.Path.{subst}
use abstraction_identity.Api.Read.{Read, got, refused, Reading, ◌>>=◌, ◌>>◌, give, ws, skip_ws}
use abstraction_identity.Api.Words.{at_end}
use abstraction_identity.Api.Records.{
  ProofRequirement, RequirementDraft, all_known, encode, object, requirement_field, required,
  checked, requirement_of, decode_requirement, decode_buffer, decode,
}
use abstraction_identity.Api.Decoded.{decode-encode}

-- What a reading gives that continues another.
bind_inv :
    {A B : Type 0} (x : Read A) (f : A → Reading B) (b : B) (s : Str)
    → ◌≡◌ {A = Read B} (elim x [ got a rest ↦ f a rest | refused e ↦ refused e ]) (got b s)
    → (a : A) × (rest : Str) × (x ≡ got a rest) × (f a rest ≡ got b s)
bind_inv (got a rest) f b s h = (a, rest, refl, h)
bind_inv (refused e) f b s h = cc

module _ (total : ℕ) where
  required_inv :
      {A B : Type 0} (o : Option A) (f : A → Reading B) (b : B) (s rest : Str)
      → (required total o >>= f) s ≡ got b rest
      → (a : A) × (f a s ≡ got b rest)
  unfolding required
  required_inv none f b s rest h = cc
  required_inv (some a) f b s rest h = (a, h)

  checked-all_known :
      (w : ProofRequirement) (s : Str) (v : ProofRequirement) (rest : Str)
      → checked total w s ≡ got v rest
      → all_known v ≡ true
  unfolding checked
  checked-all_known w s v rest h = elim (Bool-cases (all_known w)) [
    | inl e ↦
        let same : w ≡ v = ground (arith, e) in
        subst (λ (x : ProofRequirement). all_known x ≡ true) same e
    | inr e ↦ absurd (ground (arith, e))
  ]

  requirement_of-all_known :
      (d : RequirementDraft) (s : Str) (v : ProofRequirement) (rest : Str)
      → requirement_of total d s ≡ got v rest
      → all_known v ≡ true
  unfolding requirement_of
  requirement_of-all_known d s v rest h =
      let (u, h1) = required_inv d.user _ v s rest h in
      let (p, h2) = required_inv d.process _ v s rest h1 in
      let (q, h3) = required_inv d.path _ v s rest h2 in
      let (a, h4) = required_inv d.package_ _ v s rest h3 in
      let (c, h5) = required_inv d.code _ v s rest h4 in checked-all_known _ s v rest h5

  decode_requirement-all_known :
      (depth : ℕ) (s : Str) (v : ProofRequirement) (rest : Str)
      → decode_requirement total depth s ≡ got v rest
      → all_known v ≡ true
  unfolding decode_requirement
  decode_requirement-all_known depth s v rest h =
      let (d, s', _, e) =
        bind_inv (object total (requirement_field total) depth _ s) (requirement_of total) v rest
          h in
      requirement_of-all_known d s' v rest e

  decode_buffer-all_known :
      (s : Str) (v : ProofRequirement) (rest : Str)
      → decode_buffer total s ≡ got v rest
      → all_known v ≡ true
  unfolding decode_buffer
  decode_buffer-all_known s v rest h =
      let (w, s1, e1, h1) =
        bind_inv (decode_requirement total 0 (skip_ws s)) (λ w. ws >> (at_end total >> give w)) v
          rest h in
      let (u, s2, _, h2) = bind_inv (at_end total (skip_ws s1)) (λ _. give w) v rest h1 in
      let same : w ≡ v = ground (arith, h2) in
      decode_requirement-all_known 0 (skip_ws s) v s1 (
        subst (λ (x : ProofRequirement). decode_requirement total 0 (skip_ws s) ≡ got x s1) same e1)

-- Every text that Decode accepts gives a requirement that Encode writes, and Decode reads what
-- Encode writes as that requirement again, with nothing left over.
pub decode_canonical :
    (text : Str) (v : ProofRequirement) (rest : Str)
    → decode text ≡ got v rest
    → (t : Str) × (encode v ≡ some t) × (decode t ≡ got v [])
unfolding decode
decode_canonical text v rest h =
    decode-encode v (decode_buffer-all_known (length text) text v rest h)
