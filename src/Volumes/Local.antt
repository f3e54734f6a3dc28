-- ===== src/Volumes/Local.antt =====
-- localpath_statfs.go: whether a path lies on a local volume, and the test hook that marks volumes.
use abstraction_identity.Base.{
  ℕ, zero, suc, Bool, false, not, ◌||◌, List, [], ◌∷◌, ◌++◌, if◌then◌else◌, Str, codes, str_eq,
  is_empty, length, Option, none, some,
}
use abstraction_identity.Program.{has_prefix}

-- What `statfsVolume` says of a path: its volume's answer, that nothing is there (ENOENT, ENOTDIR),
-- or another error.
pub data Statfs : Type 0 where
  volume : (answer : Option Str) → Statfs
  nothing : Statfs
  fails : Str → Statfs

-- Why a path is not local: `none` is that it is.
abbrev pub Verdict : Type 0
Verdict = Option Str

module _ (statfs : Str → Statfs) (dir : Str → Str) where
  -- The loop of `volumeLocal`, with the rounds that are left.
  unfoldable pub volume_loop : ℕ → Str → Option Verdict
  volume_loop zero p = none
  volume_loop (suc fuel) p =
      let above = volume_loop fuel (dir p) in
      elim (statfs p) [
        | volume answer ↦ some answer
        | fails e ↦ some (some e)
        | nothing ↦
            if str_eq (dir p) p then some (some (codes "no part of it could be read")) else above
      ]

  -- `volumeLocal`, with a round for each byte of the path, and one more.
  unfoldable pub volume_local : Str → Option Verdict
  volume_local abs = volume_loop (suc (length abs)) abs

-- `markedNetwork`
unfoldable pub marked_network : List Str → Str → Bool
marked_network [] abs = false
marked_network (p ∷ ps) abs =
    str_eq abs p || has_prefix abs (p ++ (b'/' ∷ [])) || marked_network ps abs

-- `TreatVolumeAsNetwork` of a folder that has an absolute spelling, and its `restore`.
unfoldable pub treat : Str → List Str → List Str
treat abs ps = ps ++ (abs ∷ [])

unfoldable pub restore : Str → List Str → List Str
restore abs [] = []
restore abs (p ∷ ps) = if str_eq p abs then ps else p ∷ restore abs ps

-- What `filepath.Abs` gives: a path, or its error's text.
pub data Absolute : Type 0 where
  absolute : Str → Absolute
  no_absolute : Str → Absolute

-- What the world answers in a call of `localPath`: `mount` is none, and `began` false, where the
-- deadline passes first; `answered` is whether the probe returns before it.
pub record World : Type 0 where
  pub abs : Str → Absolute
  pub clean : Str → Str
  pub dir : Str → Str
  pub statfs : Str → Statfs
  pub network : List Str
  pub mount : Option Str
  pub began : Bool
  pub answered : Bool

-- What `localPath` gives: an error with its reason, or that the path is local.
pub data LocalAnswer : Type 0 where
  is_local : LocalAnswer
  empty : LocalAnswer
  not_local : (path reason : Str) → LocalAnswer

abbrev pub no_answer : Str
no_answer = codes "its volume did not answer in time"

-- What a probe's answer means; `none` is that the rounds ran out.
abbrev pub of_verdict : Str → Option Verdict → LocalAnswer
of_verdict path none = not_local path no_answer
of_verdict path (some none) = is_local
of_verdict path (some (some e)) = not_local path e

unfoldable pub probed : World → (path abs : Str) → LocalAnswer
probed w path abs = elim w.mount [
  | none ↦ not_local path no_answer
  | some m ↦
      if not w.began
      then not_local path no_answer
      else if w.answered
      then of_verdict path (volume_local w.statfs w.dir abs)
      else not_local path no_answer
]

-- `localPath`
unfoldable pub local_path : World → Str → LocalAnswer
local_path w path = if is_empty path then empty else elim (w.abs path) [
  | no_absolute e ↦ not_local path e
  | absolute a ↦
      if marked_network w.network (w.clean a)
      then not_local path (codes "a network volume")
      else probed w path (w.clean a)
]
