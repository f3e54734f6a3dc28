-- ===== src/Examples/Programs.antt =====
-- Subject programs and server expectations at concrete inputs.
use abstraction_identity.Base.{
  ◌≡◌, ◌≤◌, ◌<◌, ◌⊎◌, refl, true, false, [], ◌∷◌, ◌++◌, Str, codes, none,
}
use abstraction_identity.Proof.{proof_none, proof_bound, at_least}
use abstraction_identity.Program.{
  msix, cut_prefix, cut_underscore, split_underscore, is_name_byte, is_id_byte, family_match,
  package_family, subject_program, same_subject_program, same_normalized_subject_program,
  same_normalized_keyed, comparable_subject_program, normalize_subject_program,
  valid_subject_program, has_control,
}
use abstraction_identity.Program.Subject.{IsPackaged, subject_program_given}
use abstraction_identity.Listen.Server.{
  check, check_locked, check_values, other_principal, other_process, read,
}
use abstraction_identity.Listen.Server.Trust.{IsExpected, read_trusted}
use abstraction_identity.Examples.Samples.{image, full_name, peer, files, expectation, conn, calm}

abbrev family : Str
family = codes "App_abcdefghijklm"

abbrev subject_name : Str
subject_name = msix ++ family

subject_program_given_example :
    (proof_bound ≤ peer.path.proof)
    × (proof_none < peer.path.proof)
    × (files.is_abs image ≡ true)
    × ((IsPackaged files peer image × (subject_name ≡ msix ++ (package_family full_name).0))
        ⊎ ((¬ IsPackaged files peer image) × (subject_name ≡ image)))
unfolding subject_program at_least package_family split_underscore family_match cut_underscore
    is_name_byte is_id_byte
subject_program_given_example = subject_program_given files peer proof_bound subject_name refl

read_trusted_example :
    (conn.closed ≡ false)
    × (calm.closed ≡ false)
    × (calm.closed ≡ false)
    × (calm.context ≡ none)
    × (calm.context ≡ none)
    × (calm.recheck ≡ none)
    × (calm.recheck ≡ none)
    × IsExpected files expectation peer
unfolding read check_locked check check_values at_least other_principal other_process
    same_subject_program same_normalized_subject_program same_normalized_keyed
    comparable_subject_program normalize_subject_program valid_subject_program cut_prefix
    has_control
read_trusted_example =
    read_trusted files conn calm calm (1 ∷ []) none expectation peer refl (λ h. cc)
