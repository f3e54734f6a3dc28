-- ===== src/PathIdentity/SameFile.antt =====
-- When two paths name one file.
use abstraction_identity.Base.{
  ◌≡◌, ◌↔◌, refl, true, Str, some, arith, inl, inr, Option-cases, str_eq→eq, eq→str_eq,
}
use abstraction_identity.PathIdentity.{Tree, answer, same_file}

-- Two paths are one file exactly where both may be opened, both have a key, and it is one key.
pub record IsSameFile (t : Tree) (a b : Str) : Type 0 where
  pub local_a : t.local a ≡ true
  pub local_b : t.local b ≡ true
  pub key : Str
  pub key_a : t.file_key a ≡ some key
  pub key_b : t.file_key b ≡ some key

same_file→IsSameFile : (t : Tree) (a b : Str) → same_file t a b ≡ answer true → IsSameFile t a b
unfolding same_file
same_file→IsSameFile t a b h = elim (Option-cases (t.file_key a)) [
  | inl bad ↦ absurd (ground arith)
  | inr (ka, qa) ↦ elim (Option-cases (t.file_key b)) [
    | inl bad ↦ absurd (ground arith)
    | inr (kb, qb) ↦
        let same : ka ≡ kb = str_eq→eq ka kb (ground arith) in
        record {
          local_a = ground arith;
          local_b = ground arith;
          key = ka;
          key_a = qa;
          key_b = ground arith;
        }
  ]
]

-- SameFile answers yes exactly for two paths that are both local and have the same file key.
pub same_file_iff : (t : Tree) (a b : Str) → (same_file t a b ≡ answer true) ↔ IsSameFile t a b
unfolding same_file
same_file_iff t a b = (
  λ h. same_file→IsSameFile t a b h,
  λ i. ground (arith, i.local_a, i.local_b, i.key_a, i.key_b, eq→str_eq i.key i.key refl),
)
