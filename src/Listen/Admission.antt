-- ===== src/Listen/Admission.antt =====
-- listen/admission.go: which AppContainers an endpoint admits, configured before it is opened.
pub mod Atomic
use abstraction_identity.Base.{
  ℕ, zero, suc, ◌+◌, ◌*◌, ◌-◌, ◌≤◌, ◌<◌, Bool, true, false, not, ◌&&◌, ◌||◌, List, [], ◌∷◌, ◌++◌,
  ltb, leb, ◌==◌, if◌then◌else◌, Str, codes, str_eq, is_empty, length, Option, none, some,
}
use abstraction_identity.Errors.{Err, plain}
use abstraction_identity.Program.{has_control}

-- `strings.Split(sid, "-")`
unfoldable pub split_dash : Str → List Str
split_dash [] = [] ∷ []
split_dash (b ∷ s) =
    let rest = split_dash s in
    if b == b'-' then [] ∷ rest else elim rest [ [] ↦ (b ∷ []) ∷ [] | p ∷ ps ↦ (b ∷ p) ∷ ps ]

unfoldable pub contains : Str → List Str → Bool
contains s [] = false
contains s (t ∷ ts) = str_eq s t || contains s ts

-- The value of a text of digits; `none` where another byte stands in it.
unfoldable pub digits_value : ℕ → Str → Option ℕ
digits_value acc [] = some acc
digits_value acc (b ∷ s) =
    if leb b'0' b && leb b b'9' then digits_value (acc * 10 + (b - b'0')) s else none

-- `strconv.ParseUint(part, 10, 32)` gives a number that prints as `part` again: digits with no
-- leading zero but in 0 itself, and a value that 32 bits hold.
unfoldable pub is_canonical_u32 : Str → Bool
is_canonical_u32 [] = false
is_canonical_u32 (b ∷ s) =
    (not (b == b'0') || is_empty s)
    && elim (digits_value 0 (b ∷ s)) [ some n ↦ ltb n 4294967296 | none ↦ false ]

unfoldable pub all_canonical : List Str → Bool
all_canonical [] = true
all_canonical (p ∷ ps) = is_canonical_u32 p && all_canonical ps

-- Eleven parts, of which the first four are S-1-15-2.
unfoldable pub is_container_sid : List Str → Bool
is_container_sid (a ∷ b ∷ c ∷ d ∷ rest) =
    (str_eq a (codes "S")
      && (str_eq b (codes "1") && (str_eq c (codes "15") && str_eq d (codes "2"))))
    && (length rest == 7 && all_canonical rest)
is_container_sid _ = false

-- The loop over the containers: each an AppContainer SID, and none twice.
unfoldable pub valid_containers : List Str → List Str → Bool
valid_containers seen [] = true
valid_containers seen (sid ∷ sids) =
    (is_container_sid (split_dash sid) && not (contains sid seen))
    && valid_containers (sid ∷ seen) sids

-- The loop over the endpoints.
unfoldable pub valid_endpoints : List Str → List Str → Bool
valid_endpoints seen [] = true
valid_endpoints seen (e ∷ es) =
    (not (is_empty e) && (not (has_control e) && not (contains e seen)))
    && valid_endpoints (e ∷ seen) es

-- `endpointAdmission.entries`
abbrev pub Entries : Type 0
Entries = List (Str × List Str)

unfoldable pub lookup : Str → Entries → Option (List Str)
lookup k [] = none
lookup k ((j, v) ∷ m) = if str_eq j k then some v else lookup k m

pub delete : Str → Entries → Entries
delete k [] = []
delete k ((j, v) ∷ m) = if str_eq j k then delete k m else (j, v) ∷ delete k m

unfoldable pub any_configured : List Str → Entries → Bool
any_configured [] m = false
any_configured (e ∷ es) m = elim (lookup e m) [ some _ ↦ true | none ↦ any_configured es m ]

pub insert_all : List Str → List Str → Entries → Entries
insert_all [] containers m = m
insert_all (e ∷ es) containers m = insert_all es containers ((e, containers) ∷ m)

pub delete_all : List Str → Entries → Entries
delete_all [] m = m
delete_all (e ∷ es) m = delete_all es (delete e m)

-- `ConfigureAdmission`: the entries after it, and the error; the release that it returns is
-- `release` of the same endpoints.
unfoldable pub configure_admission : List Str → List Str → Entries → Entries × Option Err
configure_admission endpoints containers m =
    if length endpoints == 0 || length containers == 0
    then (m, some (plain (codes "listen: admission requires endpoints and containers")))
    else if not (valid_containers [] containers)
    then (m, some (plain (codes "listen: invalid or repeated AppContainer SID")))
    else if not (valid_endpoints [] endpoints)
    then (m, some (plain (codes "listen: invalid or repeated admission endpoint")))
    else if any_configured endpoints m
    then (m, some (plain (codes "listen: admission already configured")))
    else (insert_all endpoints containers m, none)

-- The closure that `ConfigureAdmission` returns: `used` is its `sync.Once`.
unfoldable pub release : (used : Bool) → List Str → Entries → Bool × Entries
release used endpoints m = if used then (true, m) else (true, delete_all endpoints m)

-- `admittedContainers`; a missing entry is the nil slice.
unfoldable pub admitted_containers : Str → Entries → List Str
admitted_containers endpoint m = elim (lookup endpoint m) [ some cs ↦ cs | none ↦ [] ]
