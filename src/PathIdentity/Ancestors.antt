-- ===== src/PathIdentity/Ancestors.antt =====
-- What `WithinRel` decides: whether a folder above the resolved path is the folder asked about.
use abstraction_identity.Base.{
  ℕ, zero, suc, ◌≤◌, ◌<◌, ◌≡◌, ◌⊎◌, inl, inr, refl, sym, ap, ◌∙◌, Bool, true, false, not, [], Str,
  str_eq, str_eq→eq, eq→str_eq, is_empty, length, some, arith, Bool-cases,
}
use mathlib.Core.Path.{subst}
use abstraction_identity.PathIdentity.{
  Tree, answer, has_key, remainder, within_loop, within_resolved,
}

module _ (t : Tree) where
  -- `q` is `p` or a folder above it.
  pub data Ancestor : Str → Str → Type 0 where
    itself : {p : Str} → Ancestor p p
    above : {p q : Str} → Ancestor (t.dir p) q → Ancestor p q

  root-Ancestor : {p q : Str} → Ancestor p q → t.dir p ≡ p → q ≡ p
  root-Ancestor itself h = refl
  root-Ancestor (above a) h = root-Ancestor a (ap t.dir h) ∙ h

  module _ (resolved target : Str) where
    -- The answer that the folders from `p` up give: the remainder below the one that has the key,
    -- if one has it, and that nothing is found, if none has.
    pub data Verdict (p : Str) : Str × Bool → Type 0 where
      found :
          (q : Str)
          → Ancestor p q
          → has_key t target q ≡ true
          → Verdict p (remainder t resolved q, not (is_empty (remainder t resolved q)))
      nowhere : ((q : Str) → Ancestor p q → has_key t target q ≡ false) → Verdict p ([], false)

    module _ (IsAbs : Str → Type 0)
        (up : (p : Str)
          → IsAbs p
          → IsAbs (t.dir p) × ((t.dir p ≡ p) ⊎ (length (t.dir p) < length p))) where
      climbed :
          {p q : Str}
          → Ancestor p q
          → has_key t target p ≡ false
          → ((x : Str) → Ancestor (t.dir p) x → has_key t target x ≡ false)
          → has_key t target q ≡ false
      climbed itself bad all = bad
      climbed (above a) bad all = all _ a

      Verdict-above :
          (p : Str) (r : Str × Bool)
          → has_key t target p ≡ false
          → Verdict (t.dir p) r
          → Verdict p r
      Verdict-above p r bad (found q a h) = found q (above a) h
      Verdict-above p r bad (nowhere all) = nowhere (λ q a. climbed a bad all)

      Verdict-root : (p : Str) → has_key t target p ≡ false → t.dir p ≡ p → Verdict p ([], false)
      Verdict-root p bad root =
          nowhere (λ q a. subst (λ x. has_key t target x ≡ false) (sym (root-Ancestor a root)) bad)

      within_loop-Verdict :
          (fuel : ℕ) (p : Str)
          → IsAbs p
          → length p < fuel
          → (r : Str × Bool) × (within_loop t fuel resolved target p ≡ some r) × Verdict p r
      unfolding within_loop
      within_loop-Verdict zero p abs h = absurd (omega arith)
      within_loop-Verdict (suc fuel) p abs h = elim (Bool-cases (has_key t target p)) [
        | inl good ↦ (
          (remainder t resolved p, not (is_empty (remainder t resolved p))),
          rw good refl,
          found p itself good,
        )
        | inr bad ↦ elim (Bool-cases (str_eq (t.dir p) p)) [
          | inl top ↦
              (([], false), rw (bad, top) refl, Verdict-root p bad (str_eq→eq (t.dir p) p top))
          | inr below ↦ elim (up p abs).1 [
            | inl same ↦ absurd (ground (arith, eq→str_eq (t.dir p) p same))
            | inr shorter ↦
                let (r, e, v) = within_loop-Verdict fuel (t.dir p) (up p abs).0 (omega arith) in
                (r, rw (bad, below) e, Verdict-above p r bad v)
          ]
        ]
      ]

      length_dir : (p : Str) → IsAbs p → length (t.dir p) ≤ length p
      length_dir p abs = elim (up p abs).1 [
        | inl same ↦ omega (arith, ap (λ (x : Str). length x) same)
        | inr shorter ↦ omega arith
      ]

      answered :
          (r : Str × Bool)
          → within_loop t (suc (length resolved)) resolved target (t.dir resolved) ≡ some r
          → within_resolved t resolved target ≡ answer r
      unfolding within_resolved
      answered r e = ground arith

      -- Where going up from an absolute path gives an absolute path that is shorter, or the path
      -- itself at the root, the search for a folder above a resolved path always ends with an
      -- answer: the remainder of the path below a folder above it that has the key looked for, or
      -- that there is none, and then none of the folders above it has that key.
      pub within_resolved_lem :
          IsAbs resolved
          → (r : Str × Bool) × (within_resolved t resolved target ≡ answer r)
            × Verdict (t.dir resolved) r
      within_resolved_lem abs =
          let (r, e, v) =
            within_loop-Verdict (suc (length resolved)) (t.dir resolved) (up resolved abs).0
              (omega (arith, length_dir resolved abs)) in
          (r, answered r e, v)
