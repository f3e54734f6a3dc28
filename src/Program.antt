-- ===== src/Program.antt =====
-- program.go: the name of the program that a service's decisions are about. Paths and names are
-- byte strings; the functions of the path library and of the file system are the parameter `Files`.
pub mod Family
pub mod Subject
pub mod Same
use abstraction_identity.Base.{
  ℕ, Bool, true, false, not, ◌&&◌, ◌||◌, List, [], ◌∷◌, ◌++◌, ltb, leb, ◌==◌, if◌then◌else◌, Str,
  codes, str_eq, is_empty, length, Option, none, some,
}
use abstraction_identity.Proof.{Proof, proof_signed, ProofError, proven, unproven, at_least}
use abstraction_identity.Errors.{Err, plain, proof}
use abstraction_identity.Peer.Types.{Peer}

-- What the code asks of `filepath` and of the platform's files.
pub record Files : Type 0 where
  -- `filepath.IsAbs` and `filepath.Clean`
  pub is_abs : Str → Bool
  pub clean : Str → Str
  -- `packageInstallPath`; `none` is an error
  pub install_path : Str → Option Str
  -- `Within`, where an error reads false
  pub within : Str → Str → Bool
  -- `canonicalProgramPath`, `samePathName`
  pub canonical : Str → Str
  pub same_path_name : Str → Str → Bool
  -- `FileKey`; `none` is an error
  pub file_key : Str → Option Str

-- `PackagedProgramPrefix`
abbrev pub msix : Str
msix = codes "msix:"

-- `strings.CutPrefix`
unfoldable pub cut_prefix : Str → Str → Option Str
cut_prefix s [] = some s
cut_prefix [] (p ∷ ps) = none
cut_prefix (b ∷ s) (p ∷ ps) = if b == p then cut_prefix s ps else none

-- `strings.HasPrefix`
abbrev pub has_prefix : Str → Str → Bool
has_prefix s p = elim (cut_prefix s p) [ some rest ↦ true | none ↦ false ]

-- The classes `[A-Za-z0-9.-]` and `[a-z0-9]` of the family's pattern.
unfoldable pub is_name_byte : ℕ → Bool
is_name_byte b =
    (leb b'A' b && leb b b'Z')
    || ((leb b'a' b && leb b b'z') || ((leb b'0' b && leb b b'9') || (b == b'.' || b == b'-')))

unfoldable pub is_id_byte : ℕ → Bool
is_id_byte b = (leb b'a' b && leb b b'z') || (leb b'0' b && leb b b'9')

abbrev pub all_bytes : (ℕ → Bool) → Str → Bool
all_bytes p [] = true
all_bytes p (b ∷ s) = p b && all_bytes p s

-- The text before the first `_` and the text after it.
unfoldable pub cut_underscore : Str → Option (Str × Str)
cut_underscore [] = none
cut_underscore (b ∷ s) =
    if b == b'_'
    then some ([], s)
    else elim (cut_underscore s) [ none ↦ none | some (l, r) ↦ some (b ∷ l, r) ]

abbrev pub family_parts : Str → Str → Bool
family_parts name id =
    (all_bytes is_name_byte name && (leb 3 (length name) && leb (length name) 50))
    && (all_bytes is_id_byte id && length id == 13)

-- `packageFamily.MatchString`: the pattern `^[A-Za-z0-9.-]{3,50}_[a-z0-9]{13}$`. Neither class
-- has `_`, so the pattern's `_` is the first one.
unfoldable pub family_match : Str → Bool
family_match s = elim (cut_underscore s) [ none ↦ false | some (l, r) ↦ family_parts l r ]

-- `strings.Split(s, "_")`
unfoldable pub split_underscore : Str → List Str
split_underscore [] = [] ∷ []
split_underscore (b ∷ s) =
    let rest = split_underscore s in
    if b == b'_' then [] ∷ rest else elim rest [ [] ↦ (b ∷ []) ∷ [] | p ∷ ps ↦ (b ∷ p) ∷ ps ]

family_of_parts : List Str → Str × Bool
family_of_parts (a ∷ b ∷ c ∷ d ∷ e ∷ []) =
    let family = a ++ (b'_' ∷ e) in (family, family_match family)
family_of_parts _ = ([], false)

-- `PackageFamily`
unfoldable pub package_family : Str → Str × Bool
unfolding family_of_parts
package_family full_name = family_of_parts (split_underscore full_name)

-- `strings.ContainsAny(program, "\x00\r\n")`
unfoldable pub has_control : Str → Bool
has_control [] = false
has_control (b ∷ s) = (b == 0 || (b == 13 || b == 10)) || has_control s

abbrev pub is_program_path : Files → Str → Bool
is_program_path f program =
    ltb 0 (length program)
    && (leb (length program) 4096 && (f.is_abs program && not (has_control program)))

-- `ValidSubjectProgram`
unfoldable pub valid_subject_program : Files → Str → Bool
unfolding has_control cut_prefix
valid_subject_program f program = elim (cut_prefix program msix) [
  | some family ↦ family_match family
  | none ↦ is_program_path f program && str_eq (f.clean program) program
]

-- `comparableSubjectProgram`
unfoldable pub comparable_subject_program : Files → Str → Bool
comparable_subject_program f program =
    if has_prefix program msix then valid_subject_program f program else is_program_path f program

-- `NormalizeSubjectProgram`, with `CanonicalProgramPath`
unfoldable pub normalize_subject_program : Files → Str → Str
unfolding cut_prefix
normalize_subject_program f program =
    if has_prefix program msix then program else f.canonical (f.clean program)

-- `ProgramKey`
unfoldable pub program_key : Files → Str → Str
unfolding cut_prefix
program_key f program =
    if has_prefix program msix then [] else elim (f.file_key program) [ some key ↦ key | none ↦ [] ]

-- `SameNormalizedSubjectProgramKeyed`; the keys are asked for only where they are read.
unfoldable pub same_normalized_keyed : Files → Str → Str → Str → Str → Bool
same_normalized_keyed f a b key_a key_b =
    if not (valid_subject_program f a) || not (valid_subject_program f b)
    then false
    else if str_eq a b
    then true
    else if has_prefix a msix || has_prefix b msix
    then f.same_path_name a b
    else if is_empty key_a
    then f.same_path_name a b
    else if is_empty key_b
    then f.same_path_name a b
    else str_eq key_a key_b

-- `SameNormalizedSubjectProgram`
unfoldable pub same_normalized_subject_program : Files → Str → Str → Bool
same_normalized_subject_program f a b =
    same_normalized_keyed f a b (program_key f a) (program_key f b)

-- `SameSubjectProgram`
unfoldable pub same_subject_program : Files → Str → Str → Bool
same_subject_program f a b =
    if not (comparable_subject_program f a) || not (comparable_subject_program f b)
    then false
    else same_normalized_subject_program f (normalize_subject_program f a)
        (normalize_subject_program f b)

pub data SubjectResult : Type 0 where
  subject : Str → SubjectResult
  no_subject : Err → SubjectResult

-- The three nested `if`s of `SubjectProgram` that find a packaged caller.
packaged_subject : Files → Peer → Str → Option Str
packaged_subject f p path = elim (at_least p.package_ proof_signed) [
  | unproven e ↦ none
  | proven full ↦
      if (package_family full).1
      then elim (f.install_path full) [
        | none ↦ none
        | some root ↦
            if f.within path (f.clean root) then some (msix ++ (package_family full).0) else none
      ]
      else none
]

-- `SubjectProgram`; `none` is the nil peer.
unfoldable pub subject_program : Files → Option Peer → Proof → SubjectResult
unfolding packaged_subject
subject_program f none path_proof = no_subject (plain (codes "identity: no peer"))
subject_program f (some p) path_proof = elim (at_least p.path path_proof) [
  | unproven e ↦ no_subject (proof e)
  | proven path ↦
      if f.is_abs path
      then elim (packaged_subject f p (f.clean path)) [
        | some name ↦ subject name
        | none ↦ subject (f.canonical (f.clean path))
      ]
      else no_subject (plain (codes "identity: the program path is not absolute"))
]
