-- ===== src/Examples/Volumes.antt =====
-- Probes of volumes, mounts and local paths at concrete inputs.
use abstraction_identity.Base.{
  ◌≡◌, ◌<◌, ◌≤◌, ◌⊎◌, inl, inr, refl, sym, true, false, [], ◌∷◌, Str, codes, length, ltb,
  if◌then◌else◌, none, some, arith,
}
use mathlib.Core.Path.{subst}
use abstraction_identity.Program.{cut_prefix}
use abstraction_identity.Volumes.{
  Probe, Probes, began, refused, waits, start_on, start_probe, end_probe, Reach, initially, next,
  begins,
}
use abstraction_identity.Volumes.Counted.{live, overdue}
use abstraction_identity.Volumes.Starts.{start_probe_told, return_frees}
use abstraction_identity.Volumes.Local.{
  volume, absolute, World, marked_network, volume_loop, volume_local, probed, local_path,
}
use abstraction_identity.Volumes.Deepest.{IsLocal, local_path-IsLocal}

abbrev no_probes : Probes
no_probes = record { mounts = λ m. none; started = [] }

abbrev share : Str
share = codes "/mnt/share"

-- One probe on a share.
abbrev one_probe : Probes
one_probe = (start_probe share no_probes).0

one_probe-Reach : Reach one_probe
one_probe-Reach = next initially (begins share)

start_probe_told_example :
    (live share one_probe.started ≤ 8)
    × ((start_probe share one_probe).1 ≡ (
        if ltb (live share one_probe.started) 8
        then began
        else if ltb 0 (overdue share one_probe.started)
        then refused
        else waits))
start_probe_told_example = start_probe_told share one_probe-Reach

abbrev probe : Probe
probe = record { mount = share; stuck = false; done = false }

return_frees_example :
    (t : Probes) × (end_probe 0 probe one_probe ≡ some t) × ((start_probe share t).1 ≡ began)
unfolding start_probe start_on
return_frees_example = return_frees 0 probe one_probe-Reach refl refl

abbrev world : World
world = record {
  abs = λ p. absolute (codes "/etc/app");
  clean = λ p. p;
  dir = λ p. codes "/";
  statfs = λ p. volume none;
  network = share ∷ [];
  mount = some (codes "/");
  began = true;
  answered = true;
}

abbrev IsRooted : Str → Type 0
IsRooted p = (p ≡ codes "/") ⊎ (1 < length p)

up_root :
    (p : Str)
    → IsRooted p
    → IsRooted (codes "/") × ((codes "/" ≡ p) ⊎ (length (codes "/") < length p))
up_root p (inl e) = (inl refl, inl (sym e))
up_root p (inr h) = (inl refl, inr h)

cleaned-IsRooted : (p a : Str) → absolute (codes "/etc/app") ≡ absolute a → IsRooted a
cleaned-IsRooted p a h =
    let e : codes "/etc/app" ≡ a = ground arith in subst IsRooted e (inr (omega arith))

local_path-IsLocal_example : IsLocal world (codes "app")
unfolding local_path probed marked_network volume_local volume_loop cut_prefix
local_path-IsLocal_example =
    local_path-IsLocal world IsRooted up_root cleaned-IsRooted (codes "app") refl
