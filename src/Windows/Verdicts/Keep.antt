-- ===== src/Windows/Verdicts/Keep.antt =====
-- Keeping a verdict: what the sweep, the eviction and the insertion leave.
use abstraction_identity.Base.{
  ℕ, ◌≤◌, ◌≡◌, ◌⊎◌, inl, inr, refl, sym, ap, ◌∙◌, Bool, true, false, ◌||◌, List, [], ◌∷◌, ◌++◌,
  ◌==◌, ltb, leb, length, Option, none, some, ℤ, int_eq, All, arith, Bool-cases, Option-cases,
  if_rule, suc,
}
use mathlib.Core.Path.{subst}
use mathlib.Core.List.{append_assoc, append-nil}
use abstraction_identity.Proof.{Proof}
use abstraction_identity.Peer.Types.{Time, Code}
use abstraction_identity.Windows.Verdicts.{
  code_verdict_limit, Key, key_eq, Entry, Cache, find_entry, remove_entry, drop_verdict, Oldest,
  no_oldest, older, is_spent, sweep, make_room, insert, drop_old, keep_held, keep_verdict,
}
use abstraction_identity.Windows.Verdicts.Accounts.{
  Absent, Distinct, Found, Tidy, drop_verdict-Tidy, key_eq_refl, key_eq_sym, remove-Absent,
  removed-Absent, length-remove,
}

find_middle :
    (pre : List (Key × Entry)) (p : Key × Entry) (ps : List (Key × Entry))
    → Found p.0 (pre ++ (p ∷ ps))
unfolding find_entry
find_middle [] p ps = (p.1, rw (key_eq_refl p.0) refl)
find_middle (q ∷ pre) p ps = elim (Bool-cases (key_eq q.0 p.0)) [
  | inl on ↦ (q.1, rw on refl)
  | inr off ↦ let (e, f) = find_middle pre p ps in (e, rw (off, f) refl)
]

Absent-middle :
    (k : Key) (pre : List (Key × Entry)) (p : Key × Entry) (ps : List (Key × Entry))
    → Absent k (pre ++ (p ∷ ps))
    → key_eq p.0 k ≡ false
Absent-middle k [] p ps (h, a) = h
Absent-middle k (q ∷ pre) p ps (h, a) = Absent-middle k pre p ps a

find_held :
    (pre : List (Key × Entry)) (p : Key × Entry) (ps : List (Key × Entry))
    → Distinct (pre ++ (p ∷ ps))
    → find_entry p.0 (pre ++ (p ∷ ps)) ≡ some p.1
unfolding find_entry
find_held [] p ps d = rw (key_eq_refl p.0) refl
find_held (q ∷ pre) p ps (a, d) =
    rw (key_eq_sym p.0 q.0 (Absent-middle q.0 pre p ps a)) (find_held pre p ps d)

find_left : (k : Key) (pre ps : List (Key × Entry)) → Found k pre → Found k (pre ++ ps)
unfolding find_entry
find_left k [] ps (e, f) = absurd (ground (arith, f))
find_left k (q ∷ pre) ps (e, f) = elim (Bool-cases (key_eq q.0 k)) [
  | inl on ↦ (q.1, rw on refl)
  | inr off ↦ let (x, g) = find_left k pre ps (e, ground (arith, f, off)) in (x, rw (off, g) refl)
]

remove_middle :
    (pre : List (Key × Entry)) (p : Key × Entry) (ps : List (Key × Entry))
    → Distinct (pre ++ (p ∷ ps))
    → remove_entry p.0 (pre ++ (p ∷ ps)) ≡ pre ++ ps
unfolding remove_entry
remove_middle [] p ps (a, d) = rw (key_eq_refl p.0) (remove-Absent p.0 ps a)
remove_middle (q ∷ pre) p ps (a, d) =
    rw (key_eq_sym p.0 q.0 (Absent-middle q.0 pre p ps a))
      (ap (λ t. q ∷ t) (remove_middle pre p ps d))

-- `oldest` names an entry of those that the loop has passed, where there is one.
abbrev Picked : List (Key × Entry) → Oldest → Type 0
Picked es o = ((es ≡ []) × (o.at ≡ 0)) ⊎ Found o.key es

older-Picked :
    (pre : List (Key × Entry)) (p : Key × Entry) (o : Oldest)
    → Picked pre o
    → Picked (pre ++ (p ∷ [])) (older p.0 p.1.at o)
unfolding older
older-Picked pre p o k =
    if_rule (Picked (pre ++ (p ∷ []))) (o.at == 0 || ltb p.1.at o.at) _ _
      (λ taken. inr (find_middle pre p []))
      (λ left. elim k [
        | inl (e, z) ↦ absurd (ground (arith, z, left))
        | inr f ↦ inr (find_left o.key pre (p ∷ []) f)
      ])

full_nonempty : (es : List (Key × Entry)) → es ≡ [] → leb code_verdict_limit (length es) ≡ true → ⊥
full_nonempty [] e h = absurd (ground (arith, h))
full_nonempty (p ∷ ps) e h = absurd cc

find-Absent : (k : Key) (es : List (Key × Entry)) → find_entry k es ≡ none → Absent k es
unfolding find_entry
find-Absent k [] h = tt
find-Absent k (p ∷ ps) h = elim (Bool-cases (key_eq p.0 k)) [
  | inl on ↦ absurd (ground (arith, h, on))
  | inr off ↦ (off, find-Absent k ps (ground (arith, h, off)))
]

module _ (P : Key × Entry → Type 0) (gone : ℕ → Bool) (now : Time) (n : List ℕ) where
  abbrev Swept : Cache × Oldest → Type 0
  Swept (s, o) = Tidy P n s × Picked s.entries o

  sweep-Swept :
      (ps pre : List (Key × Entry)) (s : Cache) (o : Oldest)
      → s.entries ≡ pre ++ ps
      → Tidy P n s
      → Picked pre o
      → Swept (sweep gone now ps s o)
  unfolding sweep drop_verdict
  sweep-Swept [] pre s o e t k =
      (t, subst (λ (x : List (Key × Entry)). Picked x o) (sym (append-nil pre) ∙ sym e) k)
  sweep-Swept (p ∷ ps) pre s o e t k = elim (Bool-cases (is_spent gone now p.1)) [
    | inl spent ↦
        rw (sweep, spent)
          (sweep-Swept ps pre (drop_verdict p.0 p.1 s) o
            (ap (remove_entry p.0) e ∙ remove_middle pre p ps (subst Distinct e t.distinct))
            (drop_verdict-Tidy P n p.0 p.1 s t (
              subst (λ (y : List (Key × Entry)). find_entry p.0 y ≡ some p.1) (sym e)
                (find_held pre p ps (subst Distinct e t.distinct))))
            k)
    | inr stands ↦
        rw (sweep, stands)
          (sweep-Swept ps (pre ++ (p ∷ [])) s (older p.0 p.1.at o)
            (e ∙ sym (append_assoc pre (p ∷ []) ps)) t (older-Picked pre p o k))
  ]

  make_room-Tidy :
      (r : Cache × Oldest)
      → Swept r
      → (s : Cache) × (make_room r ≡ some s)
        × Tidy P n s
        × (suc (length s.entries) ≤ code_verdict_limit)
  unfolding make_room drop_verdict
  make_room-Tidy (s, o) (t, k) = elim (Bool-cases (leb code_verdict_limit (length s.entries))) [
    | inr room ↦ (s, rw room refl, t, ground (arith, room))
    | inl full ↦ elim k [
      | inl (e, z) ↦ absurd (full_nonempty s.entries e full)
      | inr (x, f) ↦
          let l = length-remove o.key s.entries t.distinct (x, f) in
          (
            drop_verdict o.key x s,
            rw (make_room, full, f) refl,
            drop_verdict-Tidy P n o.key x s t f,
            omega (arith, l, t.few),
          )
    ]
  ]

-- Dropping an entry of the key, if there is one.
drop_old-Tidy :
    (P : Key × Entry → Type 0) (n : List ℕ) (k : Key) (s : Cache)
    → Tidy P n s
    → Tidy P n (drop_old k s) × Absent k (drop_old k s).entries
unfolding drop_old drop_verdict
drop_old-Tidy P n k s t = elim (Option-cases (find_entry k s.entries)) [
  | inl gone ↦ rw (drop_old, gone) (t, find-Absent k s.entries gone)
  | inr (e, f) ↦ rw (drop_old, f) (drop_verdict-Tidy P n k e s t f, removed-Absent k s.entries)
]

All-zip :
    {A : Type 0} (P Q : A → Type 0) (xs : List A) → All P xs → All Q xs → All (λ x. P x × Q x) xs
All-zip P Q [] p q = tt
All-zip P Q (x ∷ xs) (p, ps) (q, qs) = ((p, q), All-zip P Q xs ps qs)

All-map :
    {A : Type 0} (P Q : A → Type 0) → ((x : A) → P x → Q x) → (xs : List A) → All P xs → All Q xs
All-map P Q f [] p = tt
All-map P Q f (x ∷ xs) (p, ps) = (f x p, All-map P Q f xs ps)

pub Tidy-map :
    (P Q : Key × Entry → Type 0)
    → ((p : Key × Entry) → P p → Q p)
    → (n : List ℕ) (s : Cache) → Tidy P n s
    → Tidy Q n s
Tidy-map P Q f n s t = record {
  distinct = t.distinct;
  few = t.few;
  handles = t.handles;
  each = All-map P Q f s.entries t.each;
  alone = t.alone;
}

-- An entry of a cache that has none of the key.
abbrev Fresh : (Key × Entry → Type 0) → Key → Key × Entry → Type 0
Fresh P k p = P p × (key_eq p.0 k ≡ false)

Fresh-Tidy :
    (P : Key × Entry → Type 0) (n : List ℕ) (k : Key) (s : Cache)
    → Tidy P n s
    → Absent k s.entries
    → Tidy (Fresh P k) n s
Fresh-Tidy P n k s t absent = record {
  distinct = t.distinct;
  few = t.few;
  handles = t.handles;
  each = All-zip P (λ x. key_eq x.0 k ≡ false) s.entries t.each absent;
  alone = t.alone;
}

insert-Tidy :
    (P : Key × Entry → Type 0) (n : List ℕ) (k : Key) (e : Entry) (s : Cache)
    → P (k, e)
    → Tidy (Fresh P k) (e.proc ∷ n) s
    → suc (length s.entries) ≤ code_verdict_limit
    → Tidy P n (record s { entries = (k, e) ∷ s.entries })
insert-Tidy P n k e s p t room = record {
  distinct =
      (All-map (Fresh P k) (λ x. key_eq x.0 k ≡ false) (λ x f. f.1) s.entries t.each, t.distinct);
  few = room;
  handles = λ x. omega (arith, t.handles x);
  each = (p, All-map (Fresh P k) P (λ x f. f.0) s.entries t.each);
  alone = t.alone;
}

module _ (P : Key × Entry → Type 0) (gone : ℕ → Bool) (n : List ℕ) (k : Key) where
  -- What `keepVerdict` comes to: it never uses a nil entry, and keeps the accounts.
  abbrev Keeps : Option Cache → Type 0
  Keeps r = (s : Cache) × (r ≡ some s) × Tidy P n s

  -- A handle was opened, and is not kept yet, or was closed again.
  opened_more :
      (held : ℕ) (s : Cache)
      → Tidy P n s
      → Tidy P (held ∷ n) (record s { opened = held ∷ s.opened })
  opened_more held s t = record {
    distinct = t.distinct;
    few = t.few;
    handles = λ x. omega (arith, t.handles x);
    each = t.each;
    alone = t.alone;
  }

  discarded :
      (held : ℕ) (s : Cache)
      → Tidy P n s
      → Tidy P n (record s { opened = held ∷ s.opened; closed = held ∷ s.closed })
  discarded held s t = record {
    distinct = t.distinct;
    few = t.few;
    handles = λ x. omega (arith, t.handles x);
    each = t.each;
    alone = t.alone;
  }

  keep_held-Keeps :
      (e : Entry) (s : Cache) → P (k, e) → Tidy P (e.proc ∷ n) s → Keeps (keep_held gone k e s)
  unfolding keep_held insert
  keep_held-Keeps e s p t =
      let (t1, absent) = drop_old-Tidy P (e.proc ∷ n) k s t in
      let t2 = Fresh-Tidy P (e.proc ∷ n) k (drop_old k s) t1 absent in
      let (s2, made, t3, room) =
        make_room-Tidy (Fresh P k) gone e.at (e.proc ∷ n)
          (sweep gone e.at (drop_old k s).entries (drop_old k s) no_oldest)
          (sweep-Swept (Fresh P k) gone e.at (e.proc ∷ n) (drop_old k s).entries [] (drop_old k s)
            no_oldest refl t2 (inl (refl, refl))) in
      (
        record s2 { entries = (k, e) ∷ s2.entries },
        ap (insert k e) made,
        insert-Tidy P n k e s2 p t3 room,
      )

  pub keep_verdict-Keeps :
      (dup : Option ℕ) (started : Option ℤ) (code : Code) (verdict : Proof) (now : Time) (s : Cache)
      → ((held : ℕ) → P (k, record { proc = held; code = code; verdict = verdict; at = now }))
      → Tidy P n s
      → Keeps (keep_verdict gone k dup started code verdict now s)
  unfolding keep_verdict
  keep_verdict-Keeps none started code verdict now s p t = (s, refl, t)
  keep_verdict-Keeps (some held) none code verdict now s p t = (_, refl, discarded held s t)
  keep_verdict-Keeps (some held) (some u) code verdict now s p t =
      if_rule Keeps (int_eq u k.started) _ _
        (λ same.
          keep_held-Keeps _ (record s { opened = held ∷ s.opened }) (p held) (opened_more held s t))
        (λ other. (_, refl, discarded held s t))
