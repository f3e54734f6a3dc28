-- ===== src/Program/Family.antt =====
-- The pattern of a package family, and the family of a package's full name.
use abstraction_identity.Base.{
  ℕ, ◌≤◌, ◌≡◌, ◌↔◌, inl, inr, refl, Bool, true, not, [], ◌∷◌, ◌++◌, ◌==◌, Str, length, some, arith,
  Bool-cases, Option-cases,
}
use abstraction_identity.Program.{
  is_name_byte, is_id_byte, all_bytes, cut_underscore, family_parts, family_match, split_underscore,
  package_family, msix, Files, valid_subject_program,
}

abbrev pub not_underscore : ℕ → Bool
not_underscore b = not (b == b'_')

-- A text with no `_`.
abbrev pub Plain : Str → Type 0
Plain s = all_bytes not_underscore s ≡ true

cut_underscore-append : (l r : Str) → Plain l → cut_underscore (l ++ (b'_' ∷ r)) ≡ some (l, r)
unfolding cut_underscore
cut_underscore-append [] r h = refl
cut_underscore-append (b ∷ l) r h = ground (arith, cut_underscore-append l r)

cut_underscore-some : (s l r : Str) → cut_underscore s ≡ some (l, r) → s ≡ l ++ (b'_' ∷ r)
unfolding cut_underscore
cut_underscore-some [] l r h = cc
cut_underscore-some (b ∷ s) l r h = elim (Bool-cases (b == b'_')) [
  | inl e ↦ ground arith
  | inr e ↦ elim (Option-cases (cut_underscore s)) [
    | inl n ↦ absurd (ground arith)
    | inr ((l', r'), q) ↦ ground (arith, cut_underscore-some s l' r' q)
  ]
]

name-Plain : (s : Str) → all_bytes is_name_byte s ≡ true → Plain s
unfolding is_name_byte
name-Plain [] h = refl
name-Plain (b ∷ s) h = ground (arith, name-Plain s)

-- The pattern, read independently: a name of 3 to 50 bytes out of `[A-Za-z0-9.-]`, `_`, and a
-- publisher id of 13 bytes out of `[a-z0-9]`.
pub record IsFamily (s : Str) : Type 0 where
  pub name : Str
  pub id : Str
  pub shape : s ≡ name ++ (b'_' ∷ id)
  pub name_bytes : all_bytes is_name_byte name ≡ true
  pub id_bytes : all_bytes is_id_byte id ≡ true
  pub name_min : 3 ≤ length name
  pub name_max : length name ≤ 50
  pub id_length : length id ≡ 13

family_match-IsFamily : (s : Str) → family_match s ≡ true → IsFamily s
unfolding family_match
family_match-IsFamily s h = elim (Option-cases (cut_underscore s)) [
  | inl n ↦ absurd (ground arith)
  | inr ((l, r), q) ↦
      let e : family_parts l r ≡ true = ground arith in
      record {
        name = l;
        id = r;
        shape = cut_underscore-some s l r q;
        name_bytes = ground arith;
        id_bytes = ground arith;
        name_min = ground arith;
        name_max = ground arith;
        id_length = ground arith;
      }
]

family_match-append :
    (name id : Str)
    → all_bytes is_name_byte name ≡ true
    → all_bytes is_id_byte id ≡ true
    → 3 ≤ length name
    → length name ≤ 50
    → length id ≡ 13
    → family_match (name ++ (b'_' ∷ id)) ≡ true
unfolding family_match
family_match-append name id a b c d e =
    ground (arith, cut_underscore-append name id (name-Plain name a))

-- The family test accepts exactly the texts that the pattern describes.
pub family_match_iff : (s : Str) → (family_match s ≡ true) ↔ IsFamily s
family_match_iff s = (
  λ h. family_match-IsFamily s h,
  λ f.
      rw f.shape
        (family_match-append f.name f.id f.name_bytes f.id_bytes f.name_min f.name_max f.id_length),
)

split_underscore-Plain : (s : Str) → Plain s → split_underscore s ≡ s ∷ []
unfolding split_underscore
split_underscore-Plain [] h = refl
split_underscore-Plain (b ∷ s) h = ground (arith, split_underscore-Plain s)

split_underscore-append :
    (l r : Str) → Plain l → split_underscore (l ++ (b'_' ∷ r)) ≡ l ∷ split_underscore r
unfolding split_underscore
split_underscore-append [] r h = refl
split_underscore-append (b ∷ l) r h = ground (arith, split_underscore-append l r)

-- The family of a full name <Name>_<Version>_<Architecture>_<ResourceId>_<PublisherId>, whose
-- five parts hold no `_`, is <Name>_<PublisherId>, and it is accepted exactly when that matches
-- the pattern; the three parts between them are ignored.
pub package_family_full :
    (name version architecture resource id : Str)
    → Plain name
    → Plain version
    → Plain architecture
    → Plain resource
    → Plain id
    → package_family (
        name ++ (b'_' ∷ (version ++ (b'_' ∷ (architecture ++ (b'_' ∷ (resource ++ (b'_' ∷ id))))))))
      ≡ (name ++ (b'_' ∷ id), family_match (name ++ (b'_' ∷ id)))
unfolding package_family
package_family_full name version architecture resource id hn hv ha hr hi = rw (
  split_underscore-append name _ hn,
  split_underscore-append version _ hv,
  split_underscore-append architecture _ ha,
  split_underscore-append resource _ hr,
  split_underscore-Plain id hi,
)

package_family_ok :
    (full : Str) → (package_family full).1 ≡ true → family_match (package_family full).0 ≡ true
unfolding package_family
package_family_ok full h = ground arith

-- A packaged subject that is built from an accepted full name is a valid subject program.
pub msix-valid :
    (f : Files) (full : Str)
    → (package_family full).1 ≡ true
    → valid_subject_program f (msix ++ (package_family full).0) ≡ true
unfolding valid_subject_program
msix-valid f full h = package_family_ok full h
