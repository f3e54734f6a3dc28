-- ===== src/PathIdentity.antt =====
-- pathidentity.go: whether two paths name one file, and whether a path lies in a folder. The path
-- library and the file system are the parameter `Tree`; a path is a byte string.
pub mod Ancestors
pub mod SameFile
use abstraction_identity.Base.{
  ℕ, zero, suc, ◌+◌, ◌<◌, ◌≤◌, Bool, true, false, not, ◌&&◌, ◌||◌, List, [], ◌∷◌, ◌++◌, ◌==◌,
  if◌then◌else◌, Str, codes, str_eq, is_empty, length, drop, Option, none, some,
}
use abstraction_identity.Program.{cut_prefix}

-- Why a path function gives no answer.
pub data Fault : Type 0 where
  -- a *NotLocalPathError
  not_local : Str → Fault
  -- the file system, or the path library, fails
  unreadable : Str → Fault
  -- `os.ErrNotExist` of resolveExisting, and its "empty path"
  not_exist : Str → Fault
  empty_path : Fault

pub data Asked (A : Type 0) : Type 0 where
  answer : A → Asked A
  fault : Fault → Asked A

-- What the code asks of `filepath`, `os` and the platform.
pub record Tree : Type 0 where
  -- `localPath`: whether the path may be opened
  pub local : Str → Bool
  -- `fileKey`, `resolveLinks`; `none` is an error
  pub file_key : Str → Option Str
  pub resolve_links : Str → Option Str
  -- `pathExists`, and whether `os.Lstat` says that nothing is there
  pub path_exists : Str → Bool
  pub missing : Str → Bool
  -- `filepath.Abs`, `Clean`, `Dir`, `Base`, `Join` and the separator
  pub abs : Str → Option Str
  pub clean : Str → Str
  pub dir : Str → Str
  pub base : Str → Str
  pub join : Str → Str → Str
  pub separator : ℕ

-- `strings.TrimLeft` and `TrimRight` of slashes and separators
unfoldable pub trim_left : ℕ → Str → Str
trim_left separator [] = []
trim_left separator (b ∷ s) = if b == b'/' || b == separator then trim_left separator s else b ∷ s

unfoldable pub trim_right : ℕ → Str → Str
trim_right separator [] = []
trim_right separator (b ∷ s) =
    let rest = trim_right separator s in
    if (b == b'/' || b == separator) && is_empty rest then [] else b ∷ rest

module _ (t : Tree) where
  -- `SameFile`
  unfoldable pub same_file : Str → Str → Asked Bool
  same_file a b =
      if not (t.local a)
      then fault (not_local a)
      else if not (t.local b)
      then fault (not_local b)
      else elim (t.file_key a) [
        | none ↦ fault (unreadable a)
        | some ka ↦ elim (t.file_key b) [
          | none ↦ fault (unreadable b)
          | some kb ↦ answer (str_eq ka kb)
        ]
      ]

  -- The loop of `resolveExisting`: the deepest existing folder, and what is below it. Each round
  -- goes one folder up; the fuel is its count.
  unfoldable pub climb : ℕ → (path existing rest : Str) → Asked (Str × Str)
  climb zero path existing rest = fault (not_exist path)
  climb (suc fuel) path existing rest =
      let up = t.dir existing in
      let above = climb fuel path up (t.join (t.base existing) rest) in
      if t.path_exists existing
      then answer (existing, rest)
      else if str_eq up existing
      then fault (not_exist path)
      else above

  -- The end of `resolveExisting`
  unfoldable pub joined : Asked (Str × Str) → Asked Str
  joined (fault e) = fault e
  joined (answer (existing, rest)) = elim (t.resolve_links existing) [
    | none ↦ fault (unreadable existing)
    | some real ↦ answer (if is_empty rest then real else t.join real rest)
  ]

  -- `resolveExisting`
  unfoldable pub resolve_existing : (path : Str) → (self : Bool) → Asked Str
  resolve_existing path self = if is_empty path then fault empty_path else elim (t.abs path) [
    | none ↦ fault (unreadable path)
    | some a ↦
        let cleaned = t.clean a in
        joined (
          if not self && not (str_eq (t.dir cleaned) cleaned)
          then climb (suc (length cleaned)) path (t.dir cleaned) (t.base cleaned)
          else climb (suc (length cleaned)) path cleaned [])
  ]

  -- Whether a folder has the key that is looked for.
  abbrev pub has_key : Str → Str → Bool
  has_key target p = elim (t.file_key p) [ some key ↦ str_eq key target | none ↦ false ]

  -- `rel` of `WithinRel`
  abbrev pub remainder : (resolved folder : Str) → Str
  remainder resolved folder = trim_left t.separator (drop (length folder) resolved)

  -- The loop of `WithinRel`, from one folder above `resolved` up to the root; `none` is that the
  -- fuel ran out.
  unfoldable pub within_loop : ℕ → (resolved target p : Str) → Option (Str × Bool)
  within_loop zero resolved target p = none
  within_loop (suc fuel) resolved target p =
      let above = within_loop fuel resolved target (t.dir p) in
      if has_key target p
      then some (remainder resolved p, not (is_empty (remainder resolved p)))
      else if str_eq (t.dir p) p
      then some ([], false)
      else above

  -- The loop with one round for each byte of the path, and one more.
  unfoldable pub within_resolved : (resolved target : Str) → Asked (Str × Bool)
  within_resolved resolved target =
      elim (within_loop (suc (length resolved)) resolved target (t.dir resolved)) [
        | some r ↦ answer r
        | none ↦ fault (unreadable resolved)
      ]

  -- `WithinRel`, and `Within` its second part
  unfoldable pub within_rel : (path folder : Str) → Asked (Str × Bool)
  within_rel path folder =
      if not (t.local folder)
      then fault (not_local folder)
      else if not (t.local path)
      then fault (not_local path)
      else elim (t.file_key folder) [
        | none ↦ fault (unreadable folder)
        | some target ↦ elim (resolve_existing path false) [
          | fault e ↦ fault e
          | answer resolved ↦ within_resolved resolved target
        ]
      ]

  -- The spelling test of `InsideRel`, for a folder that does not exist.
  unfoldable pub spelled_inside : (path folder : Str) → Asked (Str × Bool)
  spelled_inside path folder =
      elim (cut_prefix (t.clean path)
        (trim_right t.separator (t.clean folder) ++ (t.separator ∷ []))) [
          | none ↦ answer ([], false)
          | some rest ↦ answer (rest, not (is_empty rest))
        ]

  unfoldable pub inside_after : (path folder : Str) → Asked (Str × Bool) → Asked (Str × Bool)
  inside_after path folder (answer r) = answer r
  inside_after path folder (fault (not_local p)) = fault (not_local p)
  inside_after path folder (fault (unreadable p)) =
      if t.missing folder then spelled_inside path folder else fault (unreadable p)
  inside_after path folder (fault (not_exist p)) =
      if t.missing folder then spelled_inside path folder else fault (not_exist p)
  inside_after path folder (fault empty_path) =
      if t.missing folder then spelled_inside path folder else fault empty_path

  -- `InsideRel`, and `Inside` its second part
  unfoldable pub inside_rel : (path folder : Str) → Asked (Str × Bool)
  inside_rel path folder = inside_after path folder (within_rel path folder)
