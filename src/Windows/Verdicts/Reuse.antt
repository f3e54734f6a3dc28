-- ===== src/Windows/Verdicts/Reuse.antt =====
-- Runs of the cache of verdicts: what its callers may do in any order, and what a reused verdict is.
use abstraction_identity.Base.{
  ℕ, ◌+◌, ◌≤◌, ◌<◌, ◌≡◌, inl, inr, refl, sym, ◌∙◌, Bool, true, false, ◌||◌, List, [], ◌∷◌, Option,
  none, some, ℤ, All, arith, Bool-cases, Option-cases, if_rule,
}
use mathlib.Core.Path.{subst}
use mathlib.Core.List.{Memᴰ}
use abstraction_identity.Proof.{Proof}
use abstraction_identity.Peer.Types.{Time, Code}
use abstraction_identity.Windows.Verdicts.{
  code_verdict_lifetime, Key, key_eq, Entry, Cache, empty, find_entry, is_working, remove_working,
  drop_verdict, is_current, Begun, reused, begin_working, begin, complete, keep_verdict, keep_found,
}
use abstraction_identity.Windows.Verdicts.Accounts.{Alone, Tidy, drop_verdict-Tidy, key_eq→eq}
use abstraction_identity.Windows.Verdicts.Keep.{Tidy-map, keep_verdict-Keeps}

-- A verification that succeeded: of which process instance and image, with what result, and when.
pub record Verified : Type 0 where
  pub key : Key
  pub code : Code
  pub verdict : Proof
  pub at : Time

or_left : (a b : Bool) → (a || b) ≡ false → a ≡ false
or_left true b h = absurd (ground (arith, h))
or_left false b h = refl

or_right : (a b : Bool) → (a || b) ≡ false → b ≡ false
or_right true b h = absurd (ground (arith, h))
or_right false b h = h

some_inj : {A : Type 0} {a b : A} → some a ≡ some b → a ≡ b
some_inj e = cc

-- The runs of the cache, with the verifications that succeeded so far: callers begin, keep what a
-- verification found, if it did not fail, and end their verifications, in any order. A run may keep
-- and end any key, also one that is not being verified.
pub data Run : List Verified → Cache → Type 0 where
  started : Run [] empty
  began :
      {vs : List Verified} {s : Cache} (k : Key) (now : Time) → Run vs s → Run vs (begin k now s).0
  kept :
      {vs : List Verified} {s s' : Cache} (v : Verified) (gone : ℕ → Bool) (dup : Option ℕ)
      (start : Option ℤ)
      → keep_found gone v.key dup start (some (v.code, v.verdict)) v.at s ≡ some s'
      → Run vs s
      → Run (v ∷ vs) s'
  unverified :
      {vs : List Verified} {s s' : Cache} (k : Key) (gone : ℕ → Bool) (dup : Option ℕ)
      (start : Option ℤ) (now : Time)
      → keep_found gone k dup start none now s ≡ some s'
      → Run vs s
      → Run vs s'
  ended : {vs : List Verified} {s : Cache} (k : Key) → Run vs s → Run vs (complete k s)

abbrev pub kept_of : Key × Entry → Verified
kept_of p = record { key = p.0; code = p.1.code; verdict = p.1.verdict; at = p.1.at }

-- The entry of a key holds what one of the verifications found for it.
abbrev pub From : List Verified → Key × Entry → Type 0
From vs p = Memᴰ (kept_of p) vs

begin_working-Tidy :
    (P : Key × Entry → Type 0) (k : Key) (s : Cache) → Tidy P [] s → Tidy P [] (begin_working k s).0
unfolding begin_working
begin_working-Tidy P k s t =
    if_rule (λ (r : Cache × Begun). Tidy P [] r.0) (is_working k s.working) _ _ (λ on. t)
      (λ off. record {
        distinct = t.distinct;
        few = t.few;
        handles = t.handles;
        each = t.each;
        alone = (off, t.alone);
      })

begin-Tidy :
    (P : Key × Entry → Type 0) (k : Key) (now : Time) (s : Cache)
    → Tidy P [] s
    → Tidy P [] (begin k now s).0
unfolding begin
begin-Tidy P k now s t = elim (Option-cases (find_entry k s.entries)) [
  | inl gone ↦ rw (begin, gone) (begin_working-Tidy P k s t)
  | inr (e, f) ↦
      rw (begin, f)
        (if_rule (λ (r : Cache × Begun). Tidy P [] r.0) (is_current now e) _ _ (λ on. t)
          (λ off. begin_working-Tidy P k (drop_verdict k e s) (drop_verdict-Tidy P [] k e s t f)))
]

is_working-remove :
    (x k : Key) (ks : List Key)
    → is_working x ks ≡ false
    → is_working x (remove_working k ks) ≡ false
unfolding is_working remove_working
is_working-remove x k [] h = refl
is_working-remove x k (y ∷ ys) h =
    if_rule (λ r. is_working x r ≡ false) (key_eq y k) _ _
      (λ on. is_working-remove x k ys (or_right (key_eq y x) _ h))
      (λ off.
        rw (or_left (key_eq y x) _ h, is_working-remove x k ys (or_right (key_eq y x) _ h)) refl)

remove_working-Alone : (k : Key) (ks : List Key) → Alone ks → Alone (remove_working k ks)
unfolding remove_working
remove_working-Alone k [] a = tt
remove_working-Alone k (x ∷ xs) (h, a) =
    if_rule Alone (key_eq x k) _ _ (λ on. remove_working-Alone k xs a)
      (λ off. (is_working-remove x k xs h, remove_working-Alone k xs a))

-- In every run of the cache: its keys are distinct, at most 256 of them; each handle was closed, or is
-- held by an entry, exactly as often as it was duplicated; no key is verified twice at a time; and each
-- entry holds what a verification that succeeded found for its key.
pub run-Tidy : {vs : List Verified} {s : Cache} → Run vs s → Tidy (From vs) [] s
unfolding complete keep_found
run-Tidy started = record {
  distinct = tt;
  few = omega arith;
  handles = λ x. refl;
  each = tt;
  alone = tt;
}
run-Tidy (began k now r) = begin-Tidy (From _) k now _ (run-Tidy r)
run-Tidy (kept v gone dup start e r) =
    let (s, made, t) =
      keep_verdict-Keeps (From _) gone [] v.key dup start v.code v.verdict v.at _
        (λ held. Memᴰ.head refl)
        (Tidy-map (From _) (From _) (λ p m. Memᴰ.tail m) [] _ (run-Tidy r)) in
    subst (Tidy (From _) []) (some_inj (sym made ∙ e)) t
run-Tidy (unverified k gone dup start now e r) = subst (Tidy (From _) []) (some_inj e) (run-Tidy r)
run-Tidy (ended k r) =
    let t = run-Tidy r in
    record {
      distinct = t.distinct;
      few = t.few;
      handles = t.handles;
      each = t.each;
      alone = remove_working-Alone k _ t.alone;
    }

-- In every run of the cache, keeping what a verification found never uses an entry that is not
-- there, and the run goes on.
pub keep_verdict-total :
    {vs : List Verified} {s : Cache} (v : Verified) (gone : ℕ → Bool) (dup : Option ℕ)
    (start : Option ℤ)
    → Run vs s
    → (s' : Cache) × (keep_verdict gone v.key dup start v.code v.verdict v.at s ≡ some s')
      × Run (v ∷ vs) s'
unfolding keep_found
keep_verdict-total v gone dup start r =
    let (s, made, t) =
      keep_verdict-Keeps (λ p. Unit) gone [] v.key dup start v.code v.verdict v.at _ (λ held. tt)
        (Tidy-map (From _) (λ p. Unit) (λ p m. tt) [] _ (run-Tidy r)) in
    (s, made, kept v gone dup start made r)

found-From :
    (vs : List Verified) (k : Key) (es : List (Key × Entry)) (e : Entry)
    → All (From vs) es
    → find_entry k es ≡ some e
    → From vs (k, e)
unfolding find_entry
found-From vs k [] e a f = absurd (ground (arith, f))
found-From vs k (p ∷ ps) e (h, a) f = elim (Bool-cases (key_eq p.0 k)) [
  | inl on ↦
      let same : some p.1 ≡ some e = ground (arith, f, on) in
      subst (λ x. From vs (x, e)) (key_eq→eq p.0 k on)
        (subst (λ x. From vs (p.0, x)) (some_inj same) h)
  | inr off ↦ found-From vs k ps e a (ground (arith, f, off))
]

working_not_reused :
    (k : Key) (s : Cache) (code : Code) (verdict : Proof) (at : Time)
    → (begin_working k s).1 ≡ reused code verdict at
    → ⊥
unfolding begin_working
working_not_reused k s code verdict at h = elim (Bool-cases (is_working k s.working)) [
  | inl on ↦ absurd (ground (arith, h, on))
  | inr off ↦ absurd (ground (arith, h, off))
]

current_within :
    (now : Time) (e : Entry)
    → is_current now e ≡ true
    → (e.at ≤ now) × (now < e.at + code_verdict_lifetime)
current_within now e h = (ground (arith, h), ground (arith, h))

abbrev begun_at : Begun → Time
begun_at (reused code verdict at) = at
begun_at _ = 0

abbrev Handed : List Verified → Key → Begun → Type 0
Handed vs k (reused code verdict at) =
    Memᴰ (record { key = k; code = code; verdict = verdict; at = at }) vs
Handed vs k _ = Unit

-- A verdict that is reused in a run: a verification that succeeded found it for the same process
-- instance, image and kind of revocation check, at the time that is handed on with it, which is not
-- in the future and less than five minutes ago.
pub begin-reused :
    {vs : List Verified} {s : Cache} (k : Key) (now : Time) (code : Code) (verdict : Proof)
    (at : Time)
    → Run vs s
    → (begin k now s).1 ≡ reused code verdict at
    → Memᴰ (record { key = k; code = code; verdict = verdict; at = at }) vs
      × (at ≤ now)
      × (now < at + code_verdict_lifetime)
unfolding begin
begin-reused {vs} {s} k now code verdict at r h = elim (Option-cases (find_entry k s.entries)) [
  | inl gone ↦ absurd (working_not_reused k s code verdict at (ground (arith, h, gone)))
  | inr (e, f) ↦ elim (Bool-cases (is_current now e)) [
    | inr old ↦
        absurd
          (working_not_reused k (drop_verdict k e s) code verdict at (ground (arith, h, f, old)))
    | inl current ↦
        let same : reused e.code e.verdict e.at ≡ reused code verdict at =
          ground (arith, h, f, current) in
        let m = found-From vs k s.entries e (run-Tidy r).each f in
        let (low, high) = current_within now e current in
        (
          subst (λ b. Handed vs k b) same m,
          subst (λ b. begun_at b ≤ now) same low,
          subst (λ b. now < begun_at b + code_verdict_lifetime) same high,
        )
  ]
]
