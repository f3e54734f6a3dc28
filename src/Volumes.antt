-- ===== src/Volumes.antt =====
-- localpath_statfs.go: the probes of volumes, counted for each mount, so that a mount that does not
-- answer holds a bounded number of threads. The map of mounts is a function, a probe's pointer its
-- place in the list of all that were started, and each function runs under the lock.
pub mod Counted
pub mod Mounts
pub mod Longest
pub mod Local
pub mod Starts
pub mod Deepest
use abstraction_identity.Base.{
  ℕ, zero, suc, ◌+◌, ◌-◌, ◌<◌, Bool, true, false, not, ◌&&◌, ◌||◌, List, [], ◌∷◌, ◌++◌, ◌≡◌, ltb,
  ◌==◌, if◌then◌else◌, Str, str_eq, get_elem?, Option, none, some,
}

-- `maxStuckVolumeProbes`
abbrev pub max_stuck_volume_probes : ℕ
max_stuck_volume_probes = 8

-- `probe`
pub record Probe : Type 0 where
  pub mount : Str
  pub stuck : Bool
  pub done : Bool

-- `mountProbes`; `freed` is whether callers wait for a return.
pub record MountProbes : Type 0 where
  pub outstanding : ℕ
  pub stuck : ℕ
  pub freed : Bool

-- `probes`, and every probe that was started.
pub record Probes : Type 0 where
  pub mounts : Str → Option MountProbes
  pub started : List Probe

-- Writing and deleting in the map
abbrev pub put : (Str → Option MountProbes) → Str → Option MountProbes → Str → Option MountProbes
put mounts k v j = if str_eq k j then v else mounts j

abbrev pub set {ℓ} : {A : Type ℓ} → List A → ℕ → A → List A
set [] i v = []
set (x ∷ xs) zero v = v ∷ xs
set (x ∷ xs) (suc i) v = x ∷ set xs i v

-- What a round of `startProbe` comes to.
pub data Start : Type 0 where
  began refused waits : Start

-- The entry of a mount, which is made where there is none.
abbrev pub entry : Option MountProbes → MountProbes
entry none = record { outstanding = 0; stuck = 0; freed = false }
entry (some m) = m

unfoldable pub start_on : Str → MountProbes → Probes → Probes × Start
start_on mount m s =
    if ltb m.outstanding max_stuck_volume_probes
    then (
      record s {
        mounts = put s.mounts mount (some (record m { outstanding = m.outstanding + 1 }));
        started = s.started ++ (record { mount = mount; stuck = false; done = false } ∷ []);
      },
      began,
    )
    else if ltb 0 m.stuck
    then (record s { mounts = put s.mounts mount (some m) }, refused)
    else (record s { mounts = put s.mounts mount (some (record m { freed = true })) }, waits)

-- A round of `startProbe`
unfoldable pub start_probe : Str → Probes → Probes × Start
start_probe mount s = start_on mount (entry (s.mounts mount)) s

-- The entry behind `endProbe`, which is deleted with its last probe.
unfoldable pub ended : Probe → MountProbes → Option MountProbes
ended p m =
    if m.outstanding - 1 == 0
    then none
    else some (record {
      outstanding = m.outstanding - 1;
      stuck = if p.stuck then m.stuck - 1 else m.stuck;
      freed = false;
    })

-- `endProbe` of the probe `i`; `none` is a panic at an entry that is not there.
unfoldable pub end_probe : ℕ → Probe → Probes → Option Probes
end_probe i p s = elim (s.mounts p.mount) [
  | none ↦ none
  | some m ↦ some (record {
    mounts = put s.mounts p.mount (ended p m);
    started = set s.started i (record p { done = true });
  })
]

-- `markStuck` of the probe `i`
unfoldable pub mark_stuck : ℕ → Probe → Probes → Option Probes
mark_stuck i p s = if p.done || p.stuck then some s else elim (s.mounts p.mount) [
  | none ↦ none
  | some m ↦ some (record {
    mounts = put s.mounts p.mount (some (record m { stuck = m.stuck + 1 }));
    started = set s.started i (record p { stuck = true });
  })
]

-- What callers and their probes do: a caller asks for a probe, a probe that has not returned
-- returns, a caller's deadline passes.
pub data Step (s : Probes) : Probes → Type 0 where
  begins : (mount : Str) → Step s (start_probe mount s).0
  ends :
      (i : ℕ) (p : Probe)
      → get_elem? s.started i ≡ some p
      → p.done ≡ false
      → {t : Probes} → end_probe i p s ≡ some t
      → Step s t
  marks :
      (i : ℕ) (p : Probe)
      → get_elem? s.started i ≡ some p
      → {t : Probes} → mark_stuck i p s ≡ some t
      → Step s t

pub data Reach : Probes → Type 0 where
  initially : Reach (record { mounts = λ m. none; started = [] })
  next : {s t : Probes} → Reach s → Step s t → Reach t
