-- ===== src/Windows/Verdicts/Accounts.antt =====
-- What the cache of verdicts keeps: its keys, its size, its handles.
use abstraction_identity.Base.{
  ℕ, ◌+◌, ◌≤◌, ◌≡◌, inl, inr, refl, sym, ap, Bool, true, false, ◌&&◌, List, [], ◌∷◌, ◌==◌, length,
  if◌then◌else◌, Option, none, str_eq, str_eq→eq, str_eq_refl, some, int_eq, int_eq_iff, All, arith,
  Bool-cases, if_rule, ==_iff, suc,
}
use mathlib.Core.Path.{subst}
use abstraction_identity.Windows.Verdicts.{
  code_verdict_limit, bool_eq, Key, key_eq, Entry, Cache, find_entry, remove_entry, is_working,
  drop_verdict,
}

bool_eq→eq : (a b : Bool) → bool_eq a b ≡ true → a ≡ b
bool_eq→eq true b h = sym h
bool_eq→eq false true h = absurd (ground (arith, h))
bool_eq→eq false false h = refl

bool_eq_refl : (a : Bool) → bool_eq a a ≡ true
bool_eq_refl true = refl
bool_eq_refl false = refl

and_true : (a b : Bool) → (a && b) ≡ true → (a ≡ true) × (b ≡ true)
and_true true b h = (refl, h)
and_true false b h = absurd (ground (arith, h))

pub key_eq→eq : (a b : Key) → key_eq a b ≡ true → a ≡ b
unfolding key_eq
key_eq→eq a b h =
    let (p, h1) = and_true (a.pid == b.pid) _ h in
    let (s, h2) = and_true (int_eq a.started b.started) _ h1 in
    let (i, r) = and_true (str_eq a.image b.image) _ h2 in
    λ j. record {
      pid = (==_iff a.pid b.pid).0 p j;
      started = (int_eq_iff a.started b.started).0 s j;
      image = str_eq→eq a.image b.image i j;
      revocation = bool_eq→eq a.revocation b.revocation r j;
    }

pub key_eq_refl : (a : Key) → key_eq a a ≡ true
unfolding key_eq
key_eq_refl a =
    rw
      (
        (==_iff a.pid a.pid).1 refl,
        (int_eq_iff a.started a.started).1 refl,
        str_eq_refl a.image,
        bool_eq_refl a.revocation,
      )
      refl

pub key_eq_sym : (a b : Key) → key_eq a b ≡ false → key_eq b a ≡ false
key_eq_sym a b h = elim (Bool-cases (key_eq b a)) [
  | inr off ↦ off
  | inl on ↦
      let e = subst (λ x. key_eq x b ≡ true) (key_eq→eq b a on) (key_eq_refl b) in
      absurd (ground (arith, h, e))
]

-- No entry has the key; no two have the same.
abbrev pub Absent : Key → List (Key × Entry) → Type 0
Absent k es = All (λ p. key_eq p.0 k ≡ false) es

abbrev pub Distinct : List (Key × Entry) → Type 0
Distinct [] = Unit
Distinct (p ∷ ps) = Absent p.0 ps × Distinct ps

-- The key has an entry.
abbrev pub Found : Key → List (Key × Entry) → Type 0
Found k es = (e : Entry) × (find_entry k es ≡ some e)

pub remove-Absent : (k : Key) (es : List (Key × Entry)) → Absent k es → remove_entry k es ≡ es
unfolding remove_entry
remove-Absent k [] a = refl
remove-Absent k (p ∷ ps) (h, a) = rw h (ap (λ t. p ∷ t) (remove-Absent k ps a))

Absent-remove : (x k : Key) (es : List (Key × Entry)) → Absent x es → Absent x (remove_entry k es)
unfolding remove_entry
Absent-remove x k [] a = tt
Absent-remove x k (p ∷ ps) (h, a) =
    if_rule (Absent x) (key_eq p.0 k) _ _ (λ on. Absent-remove x k ps a)
      (λ off. (h, Absent-remove x k ps a))

remove-Distinct : (k : Key) (es : List (Key × Entry)) → Distinct es → Distinct (remove_entry k es)
unfolding remove_entry
remove-Distinct k [] d = tt
remove-Distinct k (p ∷ ps) (a, d) =
    if_rule Distinct (key_eq p.0 k) _ _ (λ on. remove-Distinct k ps d)
      (λ off. (Absent-remove p.0 k ps a, remove-Distinct k ps d))

pub removed-Absent : (k : Key) (es : List (Key × Entry)) → Absent k (remove_entry k es)
unfolding remove_entry
removed-Absent k [] = tt
removed-Absent k (p ∷ ps) =
    if_rule (Absent k) (key_eq p.0 k) _ _ (λ on. removed-Absent k ps)
      (λ off. (off, removed-Absent k ps))

pub length-remove :
    (k : Key) (es : List (Key × Entry))
    → Distinct es
    → Found k es
    → suc (length (remove_entry k es)) ≡ length es
unfolding remove_entry find_entry
length-remove k [] d (e, f) = absurd (ground (arith, f))
length-remove k (p ∷ ps) (a, d) (e, f) = elim (Bool-cases (key_eq p.0 k)) [
  | inl on ↦ rw (on, remove-Absent k ps (subst (λ x. Absent x ps) (key_eq→eq p.0 k on) a)) refl
  | inr off ↦ rw off (ap suc (length-remove k ps d (e, ground (arith, f, off))))
]

All-remove :
    (P : Key × Entry → Type 0) (k : Key) (es : List (Key × Entry))
    → All P es
    → All P (remove_entry k es)
unfolding remove_entry
All-remove P k [] a = tt
All-remove P k (p ∷ ps) (h, a) =
    if_rule (All P) (key_eq p.0 k) _ _ (λ on. All-remove P k ps a) (λ off. (h, All-remove P k ps a))

-- How often a handle stands in a list, and the handles that entries hold.
abbrev pub count : ℕ → List ℕ → ℕ
count x [] = 0
count x (y ∷ ys) = (if y == x then 1 else 0) + count x ys

abbrev pub held : List (Key × Entry) → List ℕ
held [] = []
held (p ∷ ps) = p.1.proc ∷ held ps

-- An entry that is removed takes its handle with it, and no other.
pub held-remove :
    (x : ℕ) (k : Key) (e : Entry) (es : List (Key × Entry))
    → Distinct es
    → find_entry k es ≡ some e
    → count x (held es) ≡ count x (e.proc ∷ []) + count x (held (remove_entry k es))
unfolding remove_entry find_entry
held-remove x k e [] d f = absurd (ground (arith, f))
held-remove x k e (p ∷ ps) (a, d) f = elim (Bool-cases (key_eq p.0 k)) [
  | inl on ↦
      let same : some p.1 ≡ some e = ground (arith, f, on) in
      let proc : p.1.proc ≡ e.proc = ap proc_of same in
      let gone = remove-Absent k ps (subst (λ y. Absent y ps) (key_eq→eq p.0 k on) a) in
      rw (on, gone, proc) (omega arith)
  | inr off ↦ rw off (omega (arith, held-remove x k e ps d (ground (arith, f, off))))
]
  where
    proc_of : Option Entry → ℕ
    proc_of none = 0
    proc_of (some y) = y.proc

-- No key is verified twice at a time.
abbrev pub Alone : List Key → Type 0
Alone [] = Unit
Alone (x ∷ xs) = (is_working x xs ≡ false) × Alone xs

module _ (P : Key × Entry → Type 0) where
  -- The accounts of a cache, with the handles that are open and not kept yet, whose entries all
  -- satisfy `P`. Each handle was closed, or is held by an entry or open, as often as it was
  -- duplicated.
  pub record Tidy (pending : List ℕ) (s : Cache) : Type 0 where
    pub distinct : Distinct s.entries
    pub few : length s.entries ≤ code_verdict_limit
    pub handles :
        (x : ℕ) → count x s.opened ≡ count x s.closed + (count x (held s.entries) + count x pending)
    pub each : All P s.entries
    pub alone : Alone s.working

  pub drop_verdict-Tidy :
      (pending : List ℕ) (k : Key) (e : Entry) (s : Cache)
      → Tidy pending s
      → find_entry k s.entries ≡ some e
      → Tidy pending (drop_verdict k e s)
  unfolding drop_verdict
  drop_verdict-Tidy pending k e s t f = record {
    distinct = remove-Distinct k s.entries t.distinct;
    few = omega (arith, length-remove k s.entries t.distinct (e, f), t.few);
    handles = λ x. omega (arith, held-remove x k e s.entries t.distinct f, t.handles x);
    each = All-remove P k s.entries t.each;
    alone = t.alone;
  }
