-- ===== src/Listen/Admission/Atomic.antt =====
-- What configuring an endpoint's admission changes, and that releasing it undoes it.
use abstraction_identity.Base.{
  ◌≡◌, inl, inr, refl, sym, ap, ◌∙◌, true, false, List, [], ◌∷◌, if◌then◌else◌, Str, str_eq,
  str_eq_sym, str_eq_refl, none, some, arith, Option-cases,
}
use abstraction_identity.Listen.Admission.{
  contains, Entries, lookup, delete, any_configured, insert_all, delete_all, configure_admission,
  release, admitted_containers,
}

configured :
    (es cs : List Str) (m : Entries)
    → (configure_admission es cs m).1 ≡ none
    → ((configure_admission es cs m).0 ≡ insert_all es cs m) × (any_configured es m ≡ false)
unfolding configure_admission
configured es cs m h = ground arith

lookup-insert_all :
    (k : Str) (es cs : List Str) (m : Entries)
    → lookup k (insert_all es cs m) ≡ (if contains k es then some cs else lookup k m)
unfolding insert_all lookup contains
lookup-insert_all k [] cs m = refl
lookup-insert_all k (e ∷ es) cs m =
    ground (arith, lookup-insert_all k es cs ((e, cs) ∷ m), str_eq_sym k e)

delete-delete : (a b : Str) (m : Entries) → delete a (delete b m) ≡ delete b (delete a m)
unfolding delete
delete-delete a b [] = refl
delete-delete a b ((j, v) ∷ m) = ground (arith, delete-delete a b m)

delete_all-delete :
    (e : Str) (es : List Str) (m : Entries)
    → delete_all es (delete e m) ≡ delete e (delete_all es m)
unfolding delete_all
delete_all-delete e [] m = refl
delete_all-delete e (d ∷ es) m =
    ap (delete_all es) (delete-delete d e m) ∙ delete_all-delete e es (delete d m)

delete-cons_self :
    (e : Str) (cs : List Str) (m : Entries)
    → str_eq e e ≡ true
    → delete e ((e, cs) ∷ m) ≡ delete e m
unfolding delete
delete-cons_self e cs m h = ground arith

delete_all-insert_all :
    (es cs : List Str) (m : Entries) → delete_all es (insert_all es cs m) ≡ delete_all es m
unfolding delete_all insert_all
delete_all-insert_all [] cs m = refl
delete_all-insert_all (e ∷ es) cs m =
    delete_all-delete e es (insert_all es cs ((e, cs) ∷ m))
    ∙ ap (delete e) (delete_all-insert_all es cs ((e, cs) ∷ m))
    ∙ sym (delete_all-delete e es ((e, cs) ∷ m))
    ∙ ap (delete_all es) (delete-cons_self e cs m (str_eq_refl e))

delete-absent : (e : Str) (m : Entries) → lookup e m ≡ none → delete e m ≡ m
unfolding delete lookup
delete-absent e [] h = refl
delete-absent e ((j, v) ∷ m) h = ground (arith, delete-absent e m)

delete_all-absent :
    (es : List Str) (m : Entries) → any_configured es m ≡ false → delete_all es m ≡ m
unfolding delete_all any_configured
delete_all-absent [] m h = refl
delete_all-absent (e ∷ es) m h = elim (Option-cases (lookup e m)) [
  | inl absent ↦
      ap (delete_all es) (delete-absent e m absent) ∙ delete_all-absent es m (ground arith)
  | inr (v, present) ↦ absurd (ground arith)
]

-- When ConfigureAdmission succeeds, exactly the endpoints named admit the containers given, and
-- every other endpoint admits what it did before.
pub configure_admits :
    (endpoints containers : List Str) (m : Entries) (k : Str)
    → (configure_admission endpoints containers m).1 ≡ none
    → admitted_containers k (configure_admission endpoints containers m).0
      ≡ (if contains k endpoints then containers else admitted_containers k m)
unfolding admitted_containers
configure_admits endpoints containers m k h =
    let (e, _) = configured endpoints containers m h in
    ap (admitted_containers k) e ∙ ground (arith, lookup-insert_all k endpoints containers m)

-- Releasing a configuration that succeeded gives back the entries as they were before it, and a
-- second release changes nothing.
pub release-configure_admission :
    (endpoints containers : List Str) (m later : Entries)
    → (configure_admission endpoints containers m).1 ≡ none
    → let first = release false endpoints (configure_admission endpoints containers m).0 in
      (first.1 ≡ m) × ((release first.0 endpoints later).1 ≡ later)
unfolding release
release-configure_admission endpoints containers m later h =
    let (e, free) = configured endpoints containers m h in
    (
      ap (delete_all endpoints) e
          ∙ delete_all-insert_all endpoints containers m
          ∙ delete_all-absent endpoints m free,
      refl,
    )
