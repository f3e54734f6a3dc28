-- ===== src/Volumes/Longest.antt =====
-- The mount of a path is the longest mount point that holds it.
use abstraction_identity.Base.{
  ◌≤◌, ◌≡◌, ◌⊎◌, inl, inr, refl, true, ◌&&◌, List, [], ◌∷◌, ltb, Str, length, arith, if_rule,
}
use abstraction_identity.Volumes.Mounts.{MountTable, spelled_within, unalias, best_mount, mount_in}

-- `m` is one of the mount points.
pub data Among (m : Str) : List Str → Type 0 where
  here : {ms : List Str} → Among m (m ∷ ms)
  there : {x : Str} {ms : List Str} → Among m ms → Among m (x ∷ ms)

-- The mount that is found for a path: none, or one that holds its spelling; and none that holds it
-- is longer.
pub record IsLongest (abs best : Str) (ms : List Str) (r : Str) : Type 0 where
  pub holds : (r ≡ best) ⊎ (Among r ms × (spelled_within abs r ≡ true))
  pub least : length best ≤ length r
  pub longest : (m : Str) → Among m ms → spelled_within abs m ≡ true → length m ≤ length r

longest-cons :
    (abs r m x : Str) (ms : List Str)
    → Among x (m ∷ ms)
    → (spelled_within abs m ≡ true → length m ≤ length r)
    → ((y : Str) → Among y ms → spelled_within abs y ≡ true → length y ≤ length r)
    → spelled_within abs x ≡ true
    → length x ≤ length r
longest-cons abs r m x ms here head tail h = head h
longest-cons abs r m x ms (there a) head tail h = tail x a h

best_mount-IsLongest :
    (abs : Str) (ms : List Str) (best : Str) → IsLongest abs best ms (best_mount abs best ms)
unfolding best_mount
best_mount-IsLongest abs [] best = record {
  holds = inl refl;
  least = omega arith;
  longest = λ m a h. elim a [ ];
}
best_mount-IsLongest abs (m ∷ ms) best =
    if_rule (λ (b : Str). IsLongest abs best (m ∷ ms) (best_mount abs b ms))
      (ltb (length best) (length m) && spelled_within abs m) m best
      (λ taken.
        let i = best_mount-IsLongest abs ms m in
        record {
          holds = inr (elim i.holds [
            | inl e ↦ rw e (here, ground (arith, taken))
            | inr (a, w) ↦ (there a, w)
          ]);
          least = ground (arith, taken, i.least);
          longest = λ x a h. longest-cons abs _ m x ms a (λ w. i.least) i.longest h;
        })
      (λ left.
        let i = best_mount-IsLongest abs ms best in
        record {
          holds = elim i.holds [ inl e ↦ inl e | inr (a, w) ↦ inr (there a, w) ];
          least = i.least;
          longest = λ x a h.
              longest-cons abs _ m x ms a (λ w. ground (arith, left, w, i.least)) i.longest h;
        })

-- The mount that a path is counted against: none, or a mount point of the table that holds the
-- path by its spelling, both rewritten through the aliases; and no mount point that holds it so is
-- longer.
pub mount_in-IsLongest :
    (t : MountTable) (abs : Str) → IsLongest (unalias t.aliases abs) [] t.points (mount_in t abs)
unfolding mount_in
mount_in-IsLongest t abs = best_mount-IsLongest (unalias t.aliases abs) t.points []
