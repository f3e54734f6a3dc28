-- ===== src/Linux/Proc.antt =====
-- procfs_linux.go: what is read out of the text of procfs files. A text is a byte string, and
-- white space is ASCII's.
use abstraction_identity.Base.{
  ℕ, zero, suc, ◌+◌, ◌-◌, ◌*◌, ◌/◌, ◌%◌, ◌≡◌, refl, Bool, true, false, not, ◌&&◌, ◌||◌, List, [],
  ◌∷◌, ◌++◌, ◌==◌, ltb, leb, if◌then◌else◌, Str, codes, str_eq, is_empty, length, drop, All, Option,
  none, some, arith, inl, inr, ap, Bool-cases, ℤ, pos, negsuc, int_eq, is_nonpositive,
}
use abstraction_identity.Program.{has_prefix}

-- `strings.Split(s, "\n")`
unfoldable pub split_lines : Str → List Str
split_lines [] = [] ∷ []
split_lines (b ∷ s) =
    let rest = split_lines s in
    if b == 10 then [] ∷ rest else elim rest [ [] ↦ (b ∷ []) ∷ [] | p ∷ ps ↦ (b ∷ p) ∷ ps ]

abbrev pub is_space : ℕ → Bool
is_space b = b == 32 || (leb 9 b && leb b 13)

-- `strings.TrimSpace`
unfoldable pub trim_start : Str → Str
trim_start [] = []
trim_start (b ∷ s) = if is_space b then trim_start s else b ∷ s

unfoldable pub trim_end : Str → Str
trim_end [] = []
trim_end (b ∷ s) = let rest = trim_end s in if is_space b && is_empty rest then [] else b ∷ rest

abbrev pub trim_space : Str → Str
trim_space s = trim_end (trim_start s)

-- The value of a text of digits, of which there is one at least.
unfoldable pub digits : ℕ → Str → Option ℕ
digits acc [] = some acc
digits acc (b ∷ s) = if leb b'0' b && leb b b'9' then digits (acc * 10 + (b - b'0')) s else none

unfoldable pub magnitude : (limit : ℕ) → Str → Option ℕ
magnitude limit s =
    if is_empty s
    then none
    else elim (digits 0 s) [ none ↦ none | some n ↦ if ltb limit n then none else some n ]

abbrev pub negated : ℕ → ℤ
negated zero = pos 0
negated (suc n) = negsuc n

-- `strconv.Atoi`, with a 64-bit int
unfoldable pub atoi : Str → Option ℤ
atoi [] = none
atoi (b ∷ s) =
    if b == b'-'
    then elim (magnitude 0x8000_0000_0000_0000 s) [ none ↦ none | some n ↦ some (negated n) ]
    else if b == b'+'
    then elim (magnitude 0x7FFF_FFFF_FFFF_FFFF s) [ none ↦ none | some n ↦ some (pos n) ]
    else elim (magnitude 0x7FFF_FFFF_FFFF_FFFF (b ∷ s)) [ none ↦ none | some n ↦ some (pos n) ]

-- The loop of `fieldInt`
unfoldable pub field_loop : (label : Str) → List Str → Option ℤ
field_loop label [] = none
field_loop label (line ∷ lines) =
    if has_prefix line label
    then atoi (trim_space (drop (length label) line))
    else field_loop label lines

-- `fieldInt`
unfoldable pub field_int : (text label : Str) → Option ℤ
field_int text label = field_loop label (split_lines text)

-- What `pidfdAlive` answers, where the file could be read or not.
pub data Alive : Type 0 where
  alive exited : Alive
  -- no Pid line, another pid than the connection's, or an unreadable file
  not_pidfd mismatch unreadable : Alive

unfoldable pub pid_verdict : (want : ℤ) → Option ℤ → Alive
pid_verdict want none = not_pidfd
pid_verdict want (some got) =
    if is_nonpositive got then exited else if not (int_eq got want) then mismatch else alive

-- `pidfdAlive`, over the text of the fdinfo file
unfoldable pub pidfd_alive : Option Str → (want : ℤ) → Alive
pidfd_alive none want = unreadable
pidfd_alive (some text) want = pid_verdict want (field_int text (codes "Pid:"))

-- `strings.CutSuffix(link, " (deleted)")` of `processExe`, by way of the text reversed
unfoldable pub strip_deleted : Str → Str × Bool
strip_deleted [] = ([], false)
strip_deleted (b ∷ s) =
    if str_eq (b ∷ s) (codes " (deleted)")
    then ([], true)
    else let r = strip_deleted s in (b ∷ r.0, r.1)

-- `strings.Cut(line, "=")`
unfoldable pub cut_equals : Str → Option (Str × Str)
cut_equals [] = none
cut_equals (b ∷ s) =
    let rest = cut_equals s in
    if b == b'=' then some ([], s) else elim rest [ none ↦ none | some (k, v) ↦ some (b ∷ k, v) ]

-- The loop of `iniValue`, over trimmed lines
unfoldable pub ini_loop : (section key : Str) → (inside : Bool) → List Str → Str
ini_loop section key inside [] = []
ini_loop section key inside (line ∷ lines) =
    let l = trim_space line in
    let heading = ini_loop section key (str_eq l (b'[' ∷ (section ++ (b']' ∷ [])))) lines in
    let onward = ini_loop section key inside lines in
    if has_prefix l (b'[' ∷ [])
    then heading
    else if inside
    then elim (cut_equals l) [
      | none ↦ onward
      | some (k, v) ↦ if str_eq (trim_space k) key then trim_space v else onward
    ]
    else onward

-- `iniValue`
unfoldable pub ini_value : (text section key : Str) → Str
ini_value text section key = ini_loop section key false (split_lines text)

-- `processStartTime`'s last step: ticks since boot to nanoseconds, over boot in seconds.
unfoldable pub start_time : (boot ticks hz : ℕ) → ℕ
start_time boot ticks hz = (boot + ticks / hz) * 1_000_000_000 + ticks % hz * 1_000_000_000 / hz

-- The first line with the label, and what it holds.
pub record FirstField (label : Str) (lines : List Str) (n : ℤ) : Type 0 where
  pub before : List Str
  pub line : Str
  pub after : List Str
  pub parts : lines ≡ before ++ (line ∷ after)
  pub unlabelled : All (λ l. has_prefix l label ≡ false) before
  pub labelled : has_prefix line label ≡ true
  pub value : atoi (trim_space (drop (length label) line)) ≡ some n

field_loop-FirstField :
    (label : Str) (lines : List Str) (n : ℤ)
    → field_loop label lines ≡ some n
    → FirstField label lines n
unfolding field_loop
field_loop-FirstField label [] n h = cc
field_loop-FirstField label (line ∷ lines) n h = elim (Bool-cases (has_prefix line label)) [
  | inl here ↦ record {
    before = [];
    line = line;
    after = lines;
    parts = refl;
    unlabelled = tt;
    labelled = here;
    value = ground arith;
  }
  | inr onward ↦
      let k = field_loop-FirstField label lines n (ground arith) in
      record {
        before = line ∷ k.before;
        line = k.line;
        after = k.after;
        parts = ap (λ t. line ∷ t) k.parts;
        unlabelled = (onward, k.unlabelled);
        labelled = k.labelled;
        value = k.value;
      }
]

verdict_alive :
    (want : ℤ) (o : Option ℤ)
    → pid_verdict want o ≡ alive
    → (o ≡ some want) × (is_nonpositive want ≡ false)
unfolding pid_verdict
verdict_alive want none h = cc
verdict_alive (pos m) (some (pos n)) h = (ground arith, ground arith)
verdict_alive (negsuc m) (some (pos n)) h = ground arith
verdict_alive want (some (negsuc n)) h = ground arith

-- A pidfd is reported alive only if its fdinfo text was read, and the first line of it that begins
-- with Pid: holds, but for white space around it, exactly the pid wanted, a positive one.
pub pidfd_alive_lem :
    (text : Option Str) (want : ℤ)
    → pidfd_alive text want ≡ alive
    → (s : Str) × (text ≡ some s)
      × FirstField (codes "Pid:") (split_lines s) want
      × (is_nonpositive want ≡ false)
unfolding pidfd_alive field_int
pidfd_alive_lem none want h = cc
pidfd_alive_lem (some s) want h =
    let (q, positive) = verdict_alive want (field_int s (codes "Pid:")) h in
    (s, refl, field_loop-FirstField (codes "Pid:") (split_lines s) want q, positive)
