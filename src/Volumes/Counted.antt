-- ===== src/Volumes/Counted.antt =====
-- The counters of a mount are those of its probes, and at most eight are outstanding.
use abstraction_identity.Base.{
  ℕ, zero, suc, ◌+◌, ◌-◌, ◌==◌, ◌||◌, ◌≤◌, ◌<◌, ◌≡◌, refl, Bool, true, false, not, ◌&&◌, List, [],
  ◌∷◌, ◌++◌, Str, str_eq, str_eq→eq, str_eq_refl, get_elem?, if◌then◌else◌, if_rule, ltb, Option,
  none, some, arith, Bool-cases, Option-cases, inl, inr,
}
use mathlib.Core.Path.{subst}
use abstraction_identity.Volumes.{
  Probe, MountProbes, Probes, put, set, Start, entry, start_on, start_probe, ended, end_probe,
  mark_stuck, Step, begins, ends, marks, Reach, initially, next,
}

-- How many probes of a mount have not returned, and how many of those outlived their caller.
abbrev one : Bool → ℕ
one b = if b then 1 else 0

abbrev pub live : Str → List Probe → ℕ
live m [] = 0
live m (p ∷ ps) = one (str_eq p.mount m && not p.done) + live m ps

abbrev pub overdue : Str → List Probe → ℕ
overdue m [] = 0
overdue m (p ∷ ps) = one (str_eq p.mount m && (not p.done && p.stuck)) + overdue m ps

live-append :
    (m : Str) (ps : List Probe) (q : Probe) → live m (ps ++ (q ∷ [])) ≡ live m ps + live m (q ∷ [])
live-append m [] q = omega arith
live-append m (p ∷ ps) q = omega (arith, live-append m ps q)

overdue-append :
    (m : Str) (ps : List Probe) (q : Probe)
    → overdue m (ps ++ (q ∷ [])) ≡ overdue m ps + overdue m (q ∷ [])
overdue-append m [] q = omega arith
overdue-append m (p ∷ ps) q = omega (arith, overdue-append m ps q)

pub live-set :
    (m : Str) (ps : List Probe) (i : ℕ) (p q : Probe)
    → get_elem? ps i ≡ some p
    → live m (set ps i q) + live m (p ∷ []) ≡ live m ps + live m (q ∷ [])
live-set m [] i p q h = cc
live-set m (x ∷ ps) zero p q h = let e : x ≡ p = ground arith in rw e (omega arith)
live-set m (x ∷ ps) (suc i) p q h = omega (arith, live-set m ps i p q h)

overdue-set :
    (m : Str) (ps : List Probe) (i : ℕ) (p q : Probe)
    → get_elem? ps i ≡ some p
    → overdue m (set ps i q) + overdue m (p ∷ []) ≡ overdue m ps + overdue m (q ∷ [])
overdue-set m [] i p q h = cc
overdue-set m (x ∷ ps) zero p q h = let e : x ≡ p = ground arith in rw e (omega arith)
overdue-set m (x ∷ ps) (suc i) p q h = omega (arith, overdue-set m ps i p q h)

-- An entry counts so many probes; none is there where there are none.
abbrev pub Counts : (outstanding stuck : ℕ) → Option MountProbes → Type 0
Counts n k none = (n ≡ 0) × (k ≡ 0)
Counts n k (some m) = (m.outstanding ≡ n) × (m.stuck ≡ k) × (0 < n) × (n ≤ 8)

abbrev pub IsCounted : Probes → Type 0
IsCounted s = (m : Str) → Counts (live m s.started) (overdue m s.started) (s.mounts m)

overdue-le : (m : Str) (ps : List Probe) → overdue m ps ≤ live m ps
overdue-le m [] = omega arith
overdue-le m (p ∷ ps) = ground (arith, overdue-le m ps)

ended-Counts :
    (p : Probe) (m : MountProbes) (n k n' k' : ℕ)
    → Counts n k (some m)
    → n' + 1 ≡ n
    → k' + one p.stuck ≡ k
    → k' ≤ n'
    → Counts n' k' (ended p m)
unfolding ended
ended-Counts p m n k n' k' h a b le =
    if_rule (Counts n' k') (m.outstanding - 1 == 0) _ _ (λ z. ground arith) (λ z. ground arith)

module _ (s : Probes) (c : IsCounted s) where
  -- Only the counters of one mount change.
  put-IsCounted :
      (mount : Str) (v : Option MountProbes) (ps : List Probe)
      → Counts (live mount ps) (overdue mount ps) v
      → ((m : Str)
          → str_eq mount m ≡ false
          → (live m ps ≡ live m s.started) × (overdue m ps ≡ overdue m s.started))
      → (m : Str) → Counts (live m ps) (overdue m ps) (put s.mounts mount v m)
  put-IsCounted mount v ps here_ other m = elim (Bool-cases (str_eq mount m)) [
    | inl e ↦
        rw e (subst (λ (x : Str). Counts (live x ps) (overdue x ps) v) (str_eq→eq mount m e) here_)
    | inr e ↦ rw (e, (other m e).0, (other m e).1) (c m)
  ]

  append-other :
      (mount m : Str)
      → str_eq mount m ≡ false
      → let ps = s.started ++ (record { mount = mount; stuck = false; done = false } ∷ []) in
        (live m ps ≡ live m s.started) × (overdue m ps ≡ overdue m s.started)
  append-other mount m e =
      let q : Probe = record { mount = mount; stuck = false; done = false } in
      (ground (arith, live-append m s.started q), ground (arith, overdue-append m s.started q))

  append-here :
      (mount : Str)
      → let ps = s.started ++ (record { mount = mount; stuck = false; done = false } ∷ []) in
        (live mount ps ≡ live mount s.started + 1) × (overdue mount ps ≡ overdue mount s.started)
  append-here mount =
      let q : Probe = record { mount = mount; stuck = false; done = false } in
      (
        ground (arith, live-append mount s.started q, str_eq_refl mount),
        ground (arith, overdue-append mount s.started q),
      )

  start_on-IsCounted :
      (mount : Str) (m : MountProbes)
      → m.outstanding ≡ live mount s.started
      → m.stuck ≡ overdue mount s.started
      → live mount s.started ≤ 8
      → IsCounted (start_on mount m s).0
  unfolding start_on
  start_on-IsCounted mount m o k h =
      if_rule (λ (r : Probes × Start). IsCounted r.0) (ltb m.outstanding 8) _ _
        (λ room. put-IsCounted mount _ _ (ground (arith, append-here mount)) (append-other mount))
        λ full.
          if_rule (λ (r : Probes × Start). IsCounted r.0) (ltb 0 m.stuck) _ _
            (λ dead. put-IsCounted mount _ s.started (ground arith) (λ x e. (refl, refl)))
            (λ busy. put-IsCounted mount _ s.started (ground arith) (λ x e. (refl, refl)))

  entry-Counts :
      (mount : Str) (o : Option MountProbes)
      → Counts (live mount s.started) (overdue mount s.started) o
      → ((entry o).outstanding ≡ live mount s.started)
        × ((entry o).stuck ≡ overdue mount s.started)
        × (live mount s.started ≤ 8)
  entry-Counts mount none h = omega arith
  entry-Counts mount (some m) h = omega arith

  begins-IsCounted : (mount : Str) → IsCounted (start_probe mount s).0
  unfolding start_probe
  begins-IsCounted mount =
      let (o, k, h) = entry-Counts mount (s.mounts mount) (c mount) in
      start_on-IsCounted mount (entry (s.mounts mount)) o k h

  module _ (i : ℕ) (p q : Probe) (same : q.mount ≡ p.mount)
      (h : get_elem? s.started i ≡ some p) where
    set-other :
        (m : Str)
        → str_eq p.mount m ≡ false
        → (live m (set s.started i q) ≡ live m s.started)
          × (overdue m (set s.started i q) ≡ overdue m s.started)
    set-other m e =
        let e' : str_eq q.mount m ≡ false = rw same e in
        (
          ground (arith, live-set m s.started i p q h),
          ground (arith, overdue-set m s.started i p q h),
        )

  ends-IsCounted :
      (i : ℕ) (p : Probe) (t : Probes)
      → get_elem? s.started i ≡ some p
      → p.done ≡ false
      → end_probe i p s ≡ some t
      → IsCounted t
  unfolding end_probe
  ends-IsCounted i p t h d e = elim (Option-cases (s.mounts p.mount)) [
    | inl gone ↦ absurd (ground (arith, gone))
    | inr (m, em) ↦
        let q : Probe = record p { done = true } in
        let ps = set s.started i q in
        let after : Probes = record { mounts = put s.mounts p.mount (ended p m); started = ps } in
        let same : after ≡ t = ground (arith, em) in
        subst IsCounted same (
          put-IsCounted p.mount (ended p m) ps
            (ended-Counts p m _ _ _ _ (subst (Counts _ _) em (c p.mount))
              (ground (arith, live-set p.mount s.started i p q h, str_eq_refl p.mount))
              (ground (arith, overdue-set p.mount s.started i p q h, str_eq_refl p.mount))
              (overdue-le p.mount ps))
            (set-other i p q refl h))
  ]

  marks-IsCounted :
      (i : ℕ) (p : Probe) (t : Probes)
      → get_elem? s.started i ≡ some p
      → mark_stuck i p s ≡ some t
      → IsCounted t
  unfolding mark_stuck
  marks-IsCounted i p t h e = elim (Bool-cases (p.done || p.stuck)) [
    | inl over ↦ let same : s ≡ t = ground (arith, over) in subst IsCounted same c
    | inr open_ ↦ elim (Option-cases (s.mounts p.mount)) [
      | inl gone ↦ absurd (ground (arith, gone, open_))
      | inr (m, em) ↦
          let q : Probe = record p { stuck = true } in
          let after : Probes = record {
            mounts = put s.mounts p.mount (some (record m { stuck = m.stuck + 1 }));
            started = set s.started i q;
          } in
          let same : after ≡ t = ground (arith, em, open_) in
          let old : Counts (live p.mount s.started) (overdue p.mount s.started) (some m) =
            subst (Counts _ _) em (c p.mount) in
          subst IsCounted same (
            put-IsCounted p.mount _ (set s.started i q)
              (ground (
                arith,
                old,
                open_,
                live-set p.mount s.started i p q h,
                overdue-set p.mount s.started i p q h,
                str_eq_refl p.mount,
              ))
              (set-other i p q refl h))
    ]
  ]

Step-IsCounted : {s t : Probes} → Step s t → IsCounted s → IsCounted t
Step-IsCounted {s} (begins mount) c = begins-IsCounted s c mount
Step-IsCounted {s} {t} (ends i p h d e) c = ends-IsCounted s c i p t h d e
Step-IsCounted {s} {t} (marks i p h e) c = marks-IsCounted s c i p t h e

pub Reach-IsCounted : {s : Probes} → Reach s → IsCounted s
Reach-IsCounted initially = λ m. (refl, refl)
Reach-IsCounted (next r st) = Step-IsCounted st (Reach-IsCounted r)

-- A probe that has not returned is counted.
pub live_pos :
    (ps : List Probe) (i : ℕ) (p : Probe)
    → get_elem? ps i ≡ some p
    → p.done ≡ false
    → 0 < live p.mount ps
live_pos ps i p h d =
    ground (arith, live-set p.mount ps i p (record p { done = true }) h, str_eq_refl p.mount)
