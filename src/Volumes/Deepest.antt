-- ===== src/Volumes/Deepest.antt =====
-- The volume that answers for a path is that of its deepest existing folder.
use abstraction_identity.Base.{
  ℕ, zero, suc, ◌<◌, ◌≡◌, ◌⊎◌, inl, inr, refl, true, false, Str, codes, str_eq, str_eq→eq,
  eq→str_eq, is_empty, length, Option, none, some, arith, Bool-cases, Option-cases,
}
use mathlib.Core.Path.{subst}
use abstraction_identity.Volumes.Local.{
  Statfs, volume, nothing, fails, Verdict, volume_loop, volume_local, marked_network, Absolute,
  absolute, no_absolute, World, is_local, of_verdict, probed, local_path,
}

module _ (statfs : Str → Statfs) (dir : Str → Str) where
  -- The answer for a path: its own volume's, or its folder's where nothing is there.
  pub data Answers : Str → Verdict → Type 0 where
    by_volume : {p : Str} {a : Verdict} → statfs p ≡ volume a → Answers p a
    by_error : {p : Str} {e : Str} → statfs p ≡ fails e → Answers p (some e)
    by_folder : {p : Str} {a : Verdict} → statfs p ≡ nothing → Answers (dir p) a → Answers p a
    at_root :
        {p : Str}
        → statfs p ≡ nothing
        → dir p ≡ p
        → Answers p (some (codes "no part of it could be read"))

  module _ (IsAbs : Str → Type 0)
      (up : (p : Str) → IsAbs p → IsAbs (dir p) × ((dir p ≡ p) ⊎ (length (dir p) < length p))) where
    volume_loop-Answers :
        (fuel : ℕ) (p : Str)
        → IsAbs p
        → length p < fuel
        → (s : Statfs) → statfs p ≡ s
        → (a : Verdict) × (volume_loop statfs dir fuel p ≡ some a) × Answers p a
    unfolding volume_loop
    volume_loop-Answers zero p abs h s e = absurd (omega arith)
    volume_loop-Answers (suc fuel) p abs h (volume a) e = (a, rw (e, volume_loop) refl, by_volume e)
    volume_loop-Answers (suc fuel) p abs h (fails x) e =
        (some x, rw (e, volume_loop) refl, by_error e)
    volume_loop-Answers (suc fuel) p abs h nothing e = elim (Bool-cases (str_eq (dir p) p)) [
      | inl top ↦ (_, rw (e, volume_loop) (rw top refl), at_root e (str_eq→eq (dir p) p top))
      | inr below ↦ elim (up p abs).1 [
        | inl same ↦ absurd (ground (arith, eq→str_eq (dir p) p same))
        | inr shorter ↦
            let (a, q, v) =
              volume_loop-Answers fuel (dir p) (up p abs).0 (omega arith) (statfs (dir p)) refl in
            (a, rw (e, volume_loop) (rw below q), by_folder e v)
      ]
    ]

    -- Where going up from an absolute path gives an absolute path that is shorter, or the path
    -- itself at the root, the walk always ends, with the answer of the deepest existing folder.
    pub volume_local-Answers :
        (p : Str) → IsAbs p → (a : Verdict) × (volume_local statfs dir p ≡ some a) × Answers p a
    unfolding volume_local
    volume_local-Answers p abs =
        volume_loop-Answers (suc (length p)) p abs (omega arith) (statfs p) refl

Absolute-cases : (x : Absolute) → ((a : Str) × (x ≡ absolute a)) ⊎ ((e : Str) × (x ≡ no_absolute e))
Absolute-cases (absolute a) = inl (a, refl)
Absolute-cases (no_absolute e) = inr (e, refl)

of_verdict-local :
    (path : Str) (o : Option Verdict) (a : Verdict)
    → o ≡ some a
    → of_verdict path o ≡ is_local
    → a ≡ none
of_verdict-local path none a e h = cc
of_verdict-local path (some none) a e h = ground arith
of_verdict-local path (some (some x)) a e h = cc

-- What `localPath` found where it calls a path local: not an empty path, an absolute spelling of it
-- that no marked folder holds, a mount, a probe that began and returned in time, and the answer of
-- the deepest existing folder, that its volume is local.
pub record IsLocal (w : World) (path : Str) : Type 0 where
  spelling : Str
  given : is_empty path ≡ false
  found : w.abs path ≡ absolute spelling
  unmarked : marked_network w.network (w.clean spelling) ≡ false
  mount : Str
  on_mount : w.mount ≡ some mount
  probed_in_time : (w.began ≡ true) × (w.answered ≡ true)
  answers : Answers w.statfs w.dir (w.clean spelling) none

module _ (w : World) (IsAbs : Str → Type 0)
    (up : (p : Str) → IsAbs p → IsAbs (w.dir p) × ((w.dir p ≡ p) ⊎ (length (w.dir p) < length p)))
    (cleaned : (p a : Str) → w.abs p ≡ absolute a → IsAbs (w.clean a)) where
  probed_local :
      (path abs : Str)
      → IsAbs abs
      → probed w path abs ≡ is_local
      → (m : Str) × (w.mount ≡ some m)
        × ((w.began ≡ true) × (w.answered ≡ true))
        × Answers w.statfs w.dir abs none
  unfolding probed
  probed_local path abs ok h = elim (Option-cases w.mount) [
    | inl e ↦ absurd (ground (arith, e))
    | inr (m, em) ↦ elim (Bool-cases w.began) [
      | inr e ↦ absurd (ground (arith, em, e))
      | inl eb ↦ elim (Bool-cases w.answered) [
        | inr e ↦ absurd (ground (arith, em, eb, e))
        | inl ea ↦
            let (a, q, v) = volume_local-Answers w.statfs w.dir IsAbs up abs ok in
            let good : of_verdict path (volume_local w.statfs w.dir abs) ≡ is_local =
              ground (arith, em, eb, ea) in
            let e : a ≡ none = of_verdict-local path (volume_local w.statfs w.dir abs) a q good in
            (m, em, (eb, ea), subst (Answers w.statfs w.dir abs) e v)
      ]
    ]
  ]

  -- Where the library's absolute paths are absolute once cleaned, and going up from such a path
  -- gives one that is shorter, or the path itself at the root: a path is called local only if it
  -- is not empty and has an absolute spelling that no folder marked as a network volume holds, its
  -- mount was found, the probe began and returned in time, and the deepest existing folder of that
  -- spelling lies on a volume that answered that it is local.
  pub local_path-IsLocal : (path : Str) → local_path w path ≡ is_local → IsLocal w path
  unfolding local_path
  local_path-IsLocal path h = elim (Bool-cases (is_empty path)) [
    | inl e ↦ absurd (ground (arith, e))
    | inr e ↦ elim (Absolute-cases (w.abs path)) [
      | inr (x, ex) ↦ absurd (ground (arith, e, ex))
      | inl (a, ea) ↦ elim (Bool-cases (marked_network w.network (w.clean a))) [
        | inl en ↦ absurd (ground (arith, e, ea, en))
        | inr en ↦
            let good : probed w path (w.clean a) ≡ is_local = ground (arith, e, ea, en) in
            let (m, em, t, v) = probed_local path (w.clean a) (cleaned path a ea) good in
            record {
              spelling = a;
              given = e;
              found = ea;
              unmarked = en;
              mount = m;
              on_mount = em;
              probed_in_time = t;
              answers = v;
            }
      ]
    ]
  ]
