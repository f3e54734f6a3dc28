-- ===== src/Volumes/Mounts.antt =====
-- localpath_statfs.go: the mount that a path lies on, by its spelling: aliases, the longest mount
-- point, and the table of mounts with the reads that are in flight.
use abstraction_identity.Base.{
  ℕ, zero, suc, ◌+◌, Bool, true, false, not, ◌&&◌, ◌||◌, List, [], ◌∷◌, ◌++◌, map, ltb, ◌==◌,
  if◌then◌else◌, Str, codes, str_eq, length, Option, none, some,
}
use abstraction_identity.Program.{cut_prefix, has_prefix}

-- `alias`
pub record Alias : Type 0 where
  pub from : Str
  pub to : Str

-- `spelledWithin`
unfoldable pub spelled_within : (abs folder : Str) → Bool
spelled_within abs folder =
    str_eq abs folder || (str_eq folder (codes "/") || has_prefix abs (folder ++ (b'/' ∷ [])))

-- The longest alias of a path, the first of those; `best` is the one found so far.
unfoldable pub best_alias : (abs : Str) → (best : Option Alias) → List Alias → Option Alias
best_alias abs best [] = best
best_alias abs best (a ∷ as_) =
    best_alias abs
      (if spelled_within abs a.from
          && (elim best [ none ↦ true | some b ↦ ltb (length b.from) (length a.from) ])
        then some a
        else best)
      as_

-- `strings.TrimPrefix`
abbrev trim_prefix : Str → Str → Str
trim_prefix s p = elim (cut_prefix s p) [ none ↦ s | some rest ↦ rest ]

-- The loop of `unalias`, with the rounds that are left.
unfoldable pub unalias_loop : ℕ → List Alias → Str → Str
unalias_loop zero as_ abs = abs
unalias_loop (suc n) as_ abs = elim (best_alias abs none as_) [
  | none ↦ abs
  | some a ↦ unalias_loop n as_ (a.to ++ trim_prefix abs a.from)
]

-- `unalias`
unfoldable pub unalias : List Alias → Str → Str
unalias as_ abs = unalias_loop 4 as_ abs

-- The loop of `mountOf` over the mount points
unfoldable pub best_mount : (abs best : Str) → List Str → Str
best_mount abs best [] = best
best_mount abs best (m ∷ ms) =
    best_mount abs (if ltb (length best) (length m) && spelled_within abs m then m else best) ms

-- The table of mounts: `refreshing` is the read in flight, by a number of its own.
pub record MountTable : Type 0 where
  pub loaded : Bool
  pub read : ℕ
  pub points : List Str
  pub aliases : List Alias
  pub refreshing : Option ℕ
  pub gen : ℕ

-- `mountOf` behind the wait for a first read: the path's mount.
unfoldable pub mount_in : MountTable → Str → Str
mount_in t abs = best_mount (unalias t.aliases abs) [] t.points

-- `mountTableTTL`
abbrev pub mount_table_ttl : ℕ
mount_table_ttl = 1_000_000_000

-- The start of `mountOf`: whether a read has to be started, and the table with it in flight.
unfoldable pub begin_read : (now fresh : ℕ) → MountTable → MountTable × Bool
begin_read now fresh t =
    if not t.loaded || ltb (t.read + mount_table_ttl) now
    then (elim t.refreshing [
      | some r ↦ (t, false)
      | none ↦ (record t { refreshing = some fresh }, true)
    ])
    else (t, false)

abbrev is_read : Option ℕ → ℕ → Bool
is_read none id = false
is_read (some r) id = r == id

-- What a read finds; a failed read finds nothing.
abbrev found {ℓ} : {A : Type ℓ} → Option (List A) → List A
found none = []
found (some xs) = xs

-- The end of `refreshMountTable`, for the read `id` that started under `gen`.
unfoldable pub finish_read :
    (now id gen : ℕ) → Option (List Str) → Option (List Alias) → MountTable → MountTable
finish_read now id gen points aliases t =
    let t' =
      (if t.gen == gen
        then record t {
          points = map (unalias (found aliases)) (found points);
          aliases = found aliases;
          read = now;
          loaded = true;
        }
        else t) in
    if is_read t'.refreshing id then record t' { refreshing = none } else t'

-- `forgetMountTableLocked`
unfoldable pub forget : MountTable → MountTable
forget t = record t {
  gen = t.gen + 1;
  loaded = false;
  read = 0;
  points = [];
  aliases = [];
  refreshing = none;
}
