-- ===== src/Examples/Sessions.antt =====
-- Session limits and admission at concrete inputs.
use abstraction_identity.Base.{◌≡◌, refl, true, false, [], ◌∷◌, length, arith}
use abstraction_identity.Listen.Session.{Session}
use abstraction_identity.Listen.Session.Admission.{
  admit, AllRetiring, admit_times, admit_full_busy, admit_times_unbounded,
}

abbrev busy : Session
busy = record { expires = 100; idle = false; active = true; retiring = false }

abbrev idle : Session
idle = record busy { idle = true; active = false }

admit_full_busy_example :
    let r = admit 2 false (busy ∷ busy ∷ []) in (r.1 ≡ false) × AllRetiring r.0 × (length r.0 ≡ 2)
admit_full_busy_example =
    admit_full_busy 2 false (busy ∷ busy ∷ []) (omega arith) (refl, (refl, tt))

admit_times_unbounded_example : length (admit_times 100 1 (idle ∷ [])) ≡ 101
admit_times_unbounded_example = admit_times_unbounded 100 1 (idle ∷ []) refl
