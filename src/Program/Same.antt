-- ===== src/Program/Same.antt =====
-- When two subject programs are one.
use abstraction_identity.Base.{◌≡◌, Str, str_eq_sym, arith}
use abstraction_identity.Program.{
  Files, program_key, same_normalized_keyed, same_normalized_subject_program, same_subject_program,
  normalize_subject_program,
}

-- The comparison of names does not depend on their order.
abbrev pub SymmetricNames : Files → Type 0
SymmetricNames f = (a b : Str) → f.same_path_name a b ≡ f.same_path_name b a

keyed_sym :
    (f : Files) (a b key_a key_b : Str)
    → f.same_path_name a b ≡ f.same_path_name b a
    → same_normalized_keyed f a b key_a key_b ≡ same_normalized_keyed f b a key_b key_a
unfolding same_normalized_keyed
keyed_sym f a b key_a key_b h = rw (h, str_eq_sym a b, str_eq_sym key_a key_b) (ground arith)

-- Whether two programs are the same subject does not depend on their order, where the platform's
-- comparison of names does not.
pub same_subject_program_sym :
    (f : Files) (a b : Str)
    → SymmetricNames f
    → same_subject_program f a b ≡ same_subject_program f b a
unfolding same_subject_program same_normalized_subject_program
same_subject_program_sym f a b h =
    let a' = normalize_subject_program f a in
    let b' = normalize_subject_program f b in
    ground (arith, keyed_sym f a' b' (program_key f a') (program_key f b') (h a' b'))
