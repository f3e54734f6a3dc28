-- ===== src/Program/Subject.antt =====
-- Which name `SubjectProgram` gives a peer, and when it refuses.
use abstraction_identity.Base.{
  ◌≤◌, ◌<◌, ◌≡◌, ◌⊎◌, inl, inr, true, ◌++◌, Str, none, some, arith, Option-cases,
}
use abstraction_identity.Proof.{Proof, proof_none, proof_signed, at_least}
use abstraction_identity.Peer.Types.{Peer}
use abstraction_identity.Program.{
  Files, msix, package_family, packaged_subject, subject_program, subject,
}

-- The caller is a packaged one: its package identity is proven at the signed rung, the full name
-- has a family, and the image lies inside the package's installed folder.
pub record IsPackaged (f : Files) (p : Peer) (path : Str) : Type 0 where
  pub signed : proof_signed ≤ p.package_.proof
  pub named : (package_family p.package_.value).1 ≡ true
  pub root : Str
  pub installed : f.install_path p.package_.value ≡ some root
  pub inside : f.within path (f.clean root) ≡ true

module _ (f : Files) (p : Peer) where
  packaged_name : Str
  packaged_name = msix ++ (package_family p.package_.value).0

  packaged_subject-some :
      (path s : Str)
      → packaged_subject f p path ≡ some s
      → IsPackaged f p path × (s ≡ packaged_name)
  unfolding packaged_subject at_least packaged_name
  packaged_subject-some path s h = elim (Option-cases (f.install_path p.package_.value)) [
    | inl n ↦ absurd (ground arith)
    | inr (root, q) ↦ (
      record {
        signed = ground arith;
        named = ground arith;
        root = root;
        installed = q;
        inside = ground arith;
      },
      ground arith,
    )
  ]

  IsPackaged→packaged_subject :
      (path : Str) → IsPackaged f p path → packaged_subject f p path ≡ some packaged_name
  unfolding packaged_subject at_least packaged_name
  IsPackaged→packaged_subject path k = ground (arith, k.installed, k.inside, k.named, k.signed)

  path_subject : Str → Str
  path_subject path = f.canonical (f.clean path)

  given_path :
      (min : Proof) (s : Str)
      → subject_program f (some p) min ≡ subject s
      → (min ≤ p.path.proof)
        × (proof_none < p.path.proof)
        × (f.is_abs p.path.value ≡ true)
        × ((packaged_subject f p (f.clean p.path.value) ≡ some s)
            ⊎ ((packaged_subject f p (f.clean p.path.value) ≡ none)
                × (s ≡ path_subject p.path.value)))
  unfolding subject_program at_least path_subject
  given_path min s h = elim (Option-cases (packaged_subject f p (f.clean p.path.value))) [
    | inl n ↦ (ground arith, ground arith, ground arith, inr (n, ground arith))
    | inr (name, q) ↦ (ground arith, ground arith, ground arith, inl (ground arith))
  ]

  -- A subject is given only to a peer whose path is proven to the rung asked for and is absolute.
  -- It is msix:<family> exactly for a packaged caller (package identity proven at the signed rung,
  -- and the image inside that package's installed folder), and the canonical spelling of the
  -- cleaned path for every other one.
  pub subject_program_given :
      (min : Proof) (s : Str)
      → subject_program f (some p) min ≡ subject s
      → (min ≤ p.path.proof)
        × (proof_none < p.path.proof)
        × (f.is_abs p.path.value ≡ true)
        × ((IsPackaged f p (f.clean p.path.value)
              × (s ≡ msix ++ (package_family p.package_.value).0))
            ⊎ ((¬ IsPackaged f p (f.clean p.path.value))
                × (s ≡ f.canonical (f.clean p.path.value))))
  unfolding packaged_name path_subject
  subject_program_given min s h =
      let path = f.clean p.path.value in
      let g = given_path min s h in
      (
        g.0,
        g.1,
        g.2,
        elim g.3 [
          | inl q ↦ inl (packaged_subject-some path s q)
          | inr (n, q) ↦ inr (λ k. cc (IsPackaged→packaged_subject path k), q)
        ],
      )

  -- Every peer whose path is proven to the rung asked for, and at all, and is absolute is given a
  -- subject.
  pub subject_program_total :
      (min : Proof)
      → min ≤ p.path.proof
      → proof_none < p.path.proof
      → f.is_abs p.path.value ≡ true
      → (s : Str) × (subject_program f (some p) min ≡ subject s)
  unfolding subject_program at_least
  subject_program_total min a b c =
      elim (Option-cases (packaged_subject f p (f.clean p.path.value))) [
        | inl n ↦ (f.canonical (f.clean p.path.value), ground arith)
        | inr (name, q) ↦ (name, ground arith)
      ]
