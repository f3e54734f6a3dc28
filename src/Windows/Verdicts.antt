-- ===== src/Windows/Verdicts.antt =====
-- verdicts_windows.go: the cache of Authenticode verdicts. Each critical section under its lock is
-- one operation; what the system answers of a process handle is an argument.
pub mod Accounts
pub mod Keep
pub mod Reuse
use abstraction_identity.Base.{
  ℕ, ◌-◌, Bool, true, false, not, ◌&&◌, ◌||◌, List, [], ◌∷◌, ◌==◌, ltb, leb, length, if◌then◌else◌,
  Str, str_eq, Option, none, some, ℤ, pos, int_eq,
}
use abstraction_identity.Proof.{Proof}
use abstraction_identity.Peer.Types.{Time, Code}

-- `codeVerdictLifetime`
abbrev pub code_verdict_lifetime : ℕ
code_verdict_lifetime = 300_000_000_000

-- `codeVerdictLimit`
abbrev pub code_verdict_limit : ℕ
code_verdict_limit = 256

-- `codeVerdictKey`
pub record Key : Type 0 where
  pub pid : ℕ
  pub started : ℤ
  pub image : Str
  pub revocation : Bool

abbrev pub bool_eq : Bool → Bool → Bool
bool_eq true b = b
bool_eq false b = not b

-- `==` on keys
unfoldable pub key_eq : Key → Key → Bool
key_eq a b =
    a.pid == b.pid
    && (int_eq a.started b.started && (str_eq a.image b.image && bool_eq a.revocation b.revocation))

-- `codeVerdict`
pub record Entry : Type 0 where
  pub proc : ℕ
  pub code : Code
  pub verdict : Proof
  pub at : Time

-- `codeVerdicts`: the entries, and the keys of the verifications that run. `opened` and `closed` are
-- the handles that were duplicated, and those that were closed, the latest first.
pub record Cache : Type 0 where
  pub entries : List (Key × Entry)
  pub working : List Key
  pub opened : List ℕ
  pub closed : List ℕ

abbrev pub empty : Cache
empty = record { entries = []; working = []; opened = []; closed = [] }

-- A map's lookup and its delete.
unfoldable pub find_entry : Key → List (Key × Entry) → Option Entry
find_entry k [] = none
find_entry k (p ∷ ps) = if key_eq p.0 k then some p.1 else find_entry k ps

unfoldable pub remove_entry : Key → List (Key × Entry) → List (Key × Entry)
remove_entry k [] = []
remove_entry k (p ∷ ps) = let rest = remove_entry k ps in if key_eq p.0 k then rest else p ∷ rest

unfoldable pub is_working : Key → List Key → Bool
is_working k [] = false
is_working k (x ∷ xs) = key_eq x k || is_working k xs

unfoldable pub remove_working : Key → List Key → List Key
remove_working k [] = []
remove_working k (x ∷ xs) = let rest = remove_working k xs in if key_eq x k then rest else x ∷ rest

-- `dropVerdict`, which also closes the entry's handle
unfoldable pub drop_verdict : Key → Entry → Cache → Cache
drop_verdict k e s = record s { entries = remove_entry k s.entries; closed = e.proc ∷ s.closed }

-- Whether an entry still stands at a time: it is not from the future and not too old.
abbrev pub is_current : (now : Time) → Entry → Bool
is_current now e = ltb (now - e.at) code_verdict_lifetime && not (ltb now e.at)

-- What a caller of `verifyProcessImageAt` comes to under the lock: a verdict, a verification to wait
-- for, or one of its own.
pub data Begun : Type 0 where
  reused : Code → Proof → Time → Begun
  waits : Begun
  works : Begun

unfoldable pub begin_working : Key → Cache → Cache × Begun
begin_working k s =
    if is_working k s.working then (s, waits) else (record s { working = k ∷ s.working }, works)

-- `verifyProcessImageAt`, up to the verification
unfoldable pub begin : Key → (now : Time) → Cache → Cache × Begun
begin k now s = elim (find_entry k s.entries) [
  | none ↦ begin_working k s
  | some e ↦
      if is_current now e
      then (s, reused e.code e.verdict e.at)
      else begin_working k (drop_verdict k e s)
]

-- The deferred end of `verifyProcessImageAt`.
unfoldable pub complete : Key → Cache → Cache
complete k s = record s { working = remove_working k s.working }

-- `oldest` and `oldestAt`; the zero time is 0.
pub record Oldest : Type 0 where
  pub key : Key
  pub at : Time

abbrev pub no_oldest : Oldest
no_oldest = record {
  key = record { pid = 0; started = pos 0; image = []; revocation = false };
  at = 0;
}

unfoldable pub older : Key → Time → Oldest → Oldest
older k at o = if o.at == 0 || ltb at o.at then record { key = k; at = at } else o

-- What the loop of `keepVerdict` drops.
unfoldable pub is_spent : (gone : ℕ → Bool) → (now : Time) → Entry → Bool
is_spent gone now e = gone e.proc || (leb code_verdict_lifetime (now - e.at) || ltb now e.at)

-- The loop of `keepVerdict`, over the entries that were there when it began.
unfoldable pub sweep :
    (gone : ℕ → Bool) → (now : Time) → List (Key × Entry) → Cache → Oldest → Cache × Oldest
sweep gone now [] s o = (s, o)
sweep gone now (p ∷ ps) s o =
    sweep gone now ps (if is_spent gone now p.1 then drop_verdict p.0 p.1 s else s)
      (if is_spent gone now p.1 then o else older p.0 p.1.at o)

-- The eviction at the limit; `none` is the use of a nil entry.
unfoldable pub make_room : Cache × Oldest → Option Cache
make_room (s, o) =
    if leb code_verdict_limit (length s.entries)
    then elim (find_entry o.key s.entries) [ none ↦ none | some e ↦ some (drop_verdict o.key e s) ]
    else some s

unfoldable pub insert : Key → Entry → Option Cache → Option Cache
insert k e none = none
insert k e (some s) = some (record s { entries = (k, e) ∷ s.entries })

unfoldable pub drop_old : Key → Cache → Cache
drop_old k s = elim (find_entry k s.entries) [ none ↦ s | some e ↦ drop_verdict k e s ]

-- `keepVerdict`, under the lock
unfoldable pub keep_held : (gone : ℕ → Bool) → Key → Entry → Cache → Option Cache
keep_held gone k e s =
    let s1 = drop_old k s in insert k e (make_room (sweep gone e.at s1.entries s1 no_oldest))

-- `keepVerdict`: `dup` is the duplicated handle, `started` the start of the process it names.
unfoldable pub keep_verdict :
    (gone : ℕ → Bool)
    → Key
    → (dup : Option ℕ) → (started : Option ℤ) → Code
    → Proof
    → (now : Time) → Cache
    → Option Cache
keep_verdict gone k none started code verdict now s = some s
keep_verdict gone k (some held) none code verdict now s =
    some (record s { opened = held ∷ s.opened; closed = held ∷ s.closed })
keep_verdict gone k (some held) (some t) code verdict now s =
    if int_eq t k.started
    then keep_held gone k (record { proc = held; code = code; verdict = verdict; at = now })
        (record s { opened = held ∷ s.opened })
    else some (record s { opened = held ∷ s.opened; closed = held ∷ s.closed })

-- What `verifyProcessImageAt` keeps of a verification: nothing, where it failed.
unfoldable pub keep_found :
    (gone : ℕ → Bool)
    → Key
    → (dup : Option ℕ) → (started : Option ℤ) → (result : Option (Code × Proof)) → (now : Time)
    → Cache
    → Option Cache
keep_found gone k dup started none now s = some s
keep_found gone k dup started (some (code, verdict)) now s =
    keep_verdict gone k dup started code verdict now s
