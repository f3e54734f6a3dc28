-- ===== src/Volumes/Starts.antt =====
-- What a caller that asks for a probe is told, in every reachable state.
use abstraction_identity.Base.{
  ℕ, ◌≤◌, ◌<◌, ◌≡◌, ◌≢◌, ◌∙◌, refl, false, true, ◌||◌, Str, str_eq_refl, ltb, if◌then◌else◌,
  get_elem?, Option, none, some, arith, Bool-cases, inl, inr,
}
use abstraction_identity.Volumes.{
  Probe, MountProbes, Probes, put, set, ended, began, refused, waits, entry, start_on, start_probe,
  end_probe, mark_stuck, ends, Reach, next,
}
use abstraction_identity.Volumes.Counted.{
  live, overdue, Counts, Reach-IsCounted, live_pos, live-set,
}

start_told :
    (mount : Str) (o : Option MountProbes) (n k : ℕ) (s : Probes)
    → Counts n k o
    → (start_on mount (entry o) s).1
      ≡ (if ltb n 8 then began else if ltb 0 k then refused else waits)
unfolding start_on
start_told mount none n k s h = ground arith
start_told mount (some m) n k s h = ground arith

live_bound : (o : Option MountProbes) (n k : ℕ) → Counts n k o → n ≤ 8
live_bound none n k h = omega arith
live_bound (some m) n k h = omega arith

-- Whatever callers, probes and deadlines do: at most eight probes of a mount have not returned. A
-- caller may start one where fewer have not; where eight have not, it is refused at once if one of
-- them outlived its caller's deadline, and waits for a return if none did.
pub start_probe_told :
    {s : Probes} (mount : Str)
    → Reach s
    → (live mount s.started ≤ 8)
      × ((start_probe mount s).1 ≡ (
          if ltb (live mount s.started) 8
          then began
          else if ltb 0 (overdue mount s.started)
          then refused
          else waits))
unfolding start_probe
start_probe_told {s} mount r =
    let c = Reach-IsCounted r mount in
    (live_bound (s.mounts mount) _ _ c, start_told mount (s.mounts mount) _ _ s c)

has_entry :
    (o : Option MountProbes) (n k : ℕ) → Counts n k o → 0 < n → (m : MountProbes) × (o ≡ some m)
has_entry none n k c h = absurd (omega arith)
has_entry (some m) n k c h = (m, refl)

end_probe_lem :
    (i : ℕ) (p : Probe) (s : Probes) (m : MountProbes)
    → s.mounts p.mount ≡ some m
    → end_probe i p s
      ≡ some (record {
        mounts = put s.mounts p.mount (ended p m);
        started = set s.started i (record p { done = true });
      })
unfolding end_probe
end_probe_lem i p s m em = rw (em, end_probe) refl

module _ {s : Probes} (i : ℕ) (p : Probe) (r : Reach s) (h : get_elem? s.started i ≡ some p) where
  entry_of : p.done ≡ false → (m : MountProbes) × (s.mounts p.mount ≡ some m)
  entry_of d =
      has_entry (s.mounts p.mount) _ _ (Reach-IsCounted r p.mount) (live_pos s.started i p h d)

  -- In every reachable state a probe that has not returned finds its mount's entry when it returns,
  -- and the next caller that asks for that mount then begins a probe.
  pub return_frees :
      p.done ≡ false
      → (t : Probes) × (end_probe i p s ≡ some t) × ((start_probe p.mount t).1 ≡ began)
  return_frees d =
      let (m, em) = entry_of d in
      let q : Probe = record p { done = true } in
      let t : Probes = record {
        mounts = put s.mounts p.mount (ended p m);
        started = set s.started i q;
      } in
      let e : end_probe i p s ≡ some t = end_probe_lem i p s m em in
      let (b, told) = start_probe_told p.mount (next r (ends i p h d e)) in
      (
        t,
        e,
        told
            ∙ ground (
              arith,
              live-set p.mount s.started i p q h,
              (start_probe_told p.mount r).0,
              str_eq_refl p.mount,
            ),
      )

  -- A deadline that passes for a probe finds its mount's entry, or has nothing to record.
  pub deadline_safe : mark_stuck i p s ≢ none
  unfolding mark_stuck
  deadline_safe bad = elim (Bool-cases (p.done || p.stuck)) [
    | inl over ↦ ground (arith, over)
    | inr open_ ↦ let (m, em) = entry_of (ground (arith, open_)) in ground (arith, em, open_)
  ]
