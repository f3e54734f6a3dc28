-- ===== src/Linux/Sandbox.antt =====
-- procfs_linux.go: the sandboxed application that a process names, out of its .flatpak-info and its
-- cgroup file. A text is a byte string.
use abstraction_identity.Base.{
  ℕ, Bool, true, false, not, List, [], ◌∷◌, ◌++◌, ◌==◌, if◌then◌else◌, Str, codes, str_eq, is_empty,
  length, drop, Option, none, some,
}
use abstraction_identity.Program.{has_prefix}
use abstraction_identity.Linux.Proc.{split_lines, ini_value}

-- What stands behind the first occurrence of `sub`, by `strings.Index`.
unfoldable pub behind : (sub : Str) → Str → Option Str
behind sub [] = if is_empty sub then some [] else none
behind sub (b ∷ s) =
    let rest = behind sub s in
    if has_prefix (b ∷ s) sub then some (drop (length sub) (b ∷ s)) else rest

-- The text up to the first byte `c`.
unfoldable pub up_to : ℕ → Str → Str
up_to c [] = []
up_to c (b ∷ s) = if b == c then [] else b ∷ up_to c s

-- `strings.TrimSuffix`
unfoldable pub trim_suffix : (suffix : Str) → Str → Str
trim_suffix suffix [] = []
trim_suffix suffix (b ∷ s) = if str_eq (b ∷ s) suffix then [] else b ∷ trim_suffix suffix s

-- `strings.Split` by one byte
unfoldable pub split : ℕ → Str → List Str
split c [] = [] ∷ []
split c (b ∷ s) =
    let rest = split c s in
    if b == c then [] ∷ rest else elim rest [ [] ↦ (b ∷ []) ∷ [] | p ∷ ps ↦ (b ∷ p) ∷ ps ]

-- The instance and the application of a snap's scope, where it has both.
unfoldable pub snap_parts : List Str → Option Str
snap_parts (a ∷ b ∷ ps) = some (a ++ (b'.' ∷ b))
snap_parts ps = none

unfoldable pub snap_name : (rest : Str) → Option Str
snap_name rest =
    snap_parts
      (split b'.' (trim_suffix (codes ".service") (trim_suffix (codes ".scope") (up_to b'/' rest))))

-- The loop of `snapFromCgroup`
unfoldable pub snap_loop : List Str → Str
snap_loop [] = []
snap_loop (line ∷ lines) =
    let onward = snap_loop lines in
    elim (behind (codes "snap.") line) [
      | none ↦ onward
      | some rest ↦ elim (snap_name rest) [ some name ↦ name | none ↦ onward ]
    ]

-- `snapFromCgroup`
unfoldable pub snap_from_cgroup : Str → Str
snap_from_cgroup s = snap_loop (split_lines s)

abbrev contains : Str → Str → Bool
contains s sub = elim (behind sub s) [ some _ ↦ true | none ↦ false ]

abbrev pub nowhere_known : Str
nowhere_known =
    codes "the peer is not in a sandbox this package can recognise (Flatpak, Snap or Firejail); "
    ++ codes "Linux has no general answer to what a process is - see CONTRACT.md"

unfoldable pub by_cgroup : Option Str → Str × Str
by_cgroup none = ([], nowhere_known)
by_cgroup (some text) =
    if not (is_empty (snap_from_cgroup text))
    then (
      codes "snap:" ++ snap_from_cgroup text,
      codes "read from the peer's cgroup path, which snapd sets at launch",
    )
    else if contains text (codes "firejail")
    then (
      codes "firejail:",
      codes "the peer's cgroup names firejail, which does not carry an application id",
    )
    else ([], nowhere_known)

-- `sandboxPackage`, over the texts of .flatpak-info and of the cgroup file; `none` is that a file
-- could not be read.
unfoldable pub sandbox_package : (flatpak cgroup : Option Str) → Str × Str
sandbox_package none cgroup = by_cgroup cgroup
sandbox_package (some text) cgroup =
    let app = ini_value text (codes "Application") (codes "name") in
    if not (is_empty app)
    then (
      codes "flatpak:" ++ app,
      codes
            "read from .flatpak-info inside the peer's own mount namespace, which bubblewrap mounts "
          ++ codes "read-only",
    )
    else (
      codes "flatpak:",
      codes "the peer is in a Flatpak sandbox whose .flatpak-info names no application",
    )
