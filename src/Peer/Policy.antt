-- ===== src/Peer/Policy.antt =====
-- `Peer.Check` and `Limits.CanEver` against what a policy asks.
use abstraction_identity.Base.{
  List, [], ◌∷◌, ◌++◌, ◌≤◌, ◌≡◌, ◌↔◌, refl, ltb, if◌then◌else◌, Str, codes, none, arith, Bool-cases,
  inl, inr, All,
}
use mathlib.Core.List.{append-nil}
use abstraction_identity.Proof.{Proof, ProofError, Attr, at_least}
use abstraction_identity.Errors.{join}
use abstraction_identity.Peer.Types.{Peer}
use abstraction_identity.Peer.{Need, need_error, check, Limits, ceiling_error, can_ever}

-- Every attribute reaches what the policy asks of it.
abbrev pub Meets : Peer → Need → Type 0
Meets p n =
    (n.user ≤ p.user.proof)
    × (n.process ≤ p.process.proof)
    × (n.path ≤ p.path.proof)
    × (n.package_ ≤ p.package_.proof)
    × (n.code ≤ p.code.proof)

-- The comparison as an error, if it falls short.
pub shortfall : ProofError → List ProofError
shortfall e = if ltb e.got e.want then e ∷ [] else []

-- The errors of the comparisons that fall short, out of a list of all comparisons.
pub shortfalls : List ProofError → List ProofError
shortfalls [] = []
shortfalls (e ∷ es) = shortfall e ++ shortfalls es

abbrev comparison : {T : Type 0} → Attr T → Proof → ProofError
comparison a want = record { attribute = a.name; want = want; got = a.proof; why = a.why }

-- The five comparisons that a policy makes of a peer, in the order of the fields.
abbrev pub comparisons : Peer → Need → List ProofError
comparisons p n =
    comparison p.user n.user
    ∷ comparison p.process n.process
    ∷ comparison p.path n.path
    ∷ comparison p.package_ n.package_
    ∷ comparison p.code n.code
    ∷ []

abbrev ceiling_comparison : Limits → Str → Proof → Proof → ProofError
ceiling_comparison l name want have = record {
  attribute = name;
  want = want;
  got = have;
  why = l.why name;
}

-- The five comparisons of a policy with the best that a transport can prove.
abbrev pub ceiling_comparisons : Limits → Need → List ProofError
ceiling_comparisons l n =
    ceiling_comparison l (codes "user") n.user l.best.user
    ∷ ceiling_comparison l (codes "process") n.process l.best.process
    ∷ ceiling_comparison l (codes "path") n.path l.best.path
    ∷ ceiling_comparison l (codes "package") n.package_ l.best.package_
    ∷ ceiling_comparison l (codes "code") n.code l.best.code
    ∷ []

need_error-shortfall :
    {T : Type 0} (a : Attr T) (want : Proof) → need_error a want ≡ shortfall (comparison a want)
unfolding need_error at_least shortfall
need_error-shortfall a want = ground arith

ceiling_error-shortfall :
    (l : Limits) (name : Str) (want have : Proof)
    → ceiling_error l name want have ≡ shortfall (ceiling_comparison l name want have)
unfolding ceiling_error shortfall
ceiling_error-shortfall l name want have = refl

-- Check reports exactly the attributes that fall short, all of them, in the order of the fields,
-- each with what was asked, what was had and the platform's reason; it is nil when none does.
pub check-shortfalls : (p : Peer) (n : Need) → check p n ≡ join (shortfalls (comparisons p n))
unfolding check shortfalls
check-shortfalls p n = simp (need_error-shortfall, append-nil)

-- CanEver reports exactly the attributes that the transport's best case leaves short, all of them,
-- in the order of the fields, each with the reason recorded for that ceiling; it is nil when
-- none is.
pub can_ever-shortfalls :
    (l : Limits) (n : Need) → can_ever l n ≡ join (shortfalls (ceiling_comparisons l n))
unfolding can_ever shortfalls
can_ever-shortfalls l n = simp (ceiling_error-shortfall, append-nil)

-- A list of comparisons has no shortfall exactly when each of them holds.
abbrev Holds : ProofError → Type 0
Holds e = e.want ≤ e.got

join-shortfalls : (es : List ProofError) → (join (shortfalls es) ≡ none) ↔ All Holds es
unfolding shortfalls shortfall
join-shortfalls [] = (λ _. tt, λ _. refl)
join-shortfalls (e ∷ es) = elim (Bool-cases (ltb e.got e.want)) [
  | inl short ↦ (λ h. absurd (ground arith), λ h. absurd (ground arith))
  | inr fine ↦
      rw fine (λ h. (ground arith, (join-shortfalls es).0 h), λ h. (join-shortfalls es).1 h.1)
]

-- A peer passes Check exactly when every attribute reaches the proof that the policy asks of it.
pub check_iff : (p : Peer) (n : Need) → (check p n ≡ none) ↔ Meets p n
check_iff p n = rw check-shortfalls (
  (λ h.
      let k = (join-shortfalls (comparisons p n)).0 h in
      (k.0, k.1.0, k.1.1.0, k.1.1.1.0, k.1.1.1.1.0)),
  (λ h. (join-shortfalls (comparisons p n)).1 (omega arith)),
)

-- No attribute of the peer is proven above the transport's ceiling.
abbrev pub Within : Peer → Limits → Type 0
Within p l =
    (p.user.proof ≤ l.best.user)
    × (p.process.proof ≤ l.best.process)
    × (p.path.proof ≤ l.best.path)
    × (p.package_.proof ≤ l.best.package_)
    × (p.code.proof ≤ l.best.code)

-- The startup check refuses no policy that some peer of the transport can meet: where CanEver
-- refuses, Check refuses every peer within the ceiling.
pub can_ever_sound :
    (l : Limits) (p : Peer) (n : Need) → Within p l → check p n ≡ none → can_ever l n ≡ none
can_ever_sound l p n w h =
    let k = (check_iff p n).0 h in
    rw can_ever-shortfalls ((join-shortfalls (ceiling_comparisons l n)).1 (omega arith))

-- The startup check admits no policy that the transport cannot meet: where CanEver is nil, a
-- peer proven up to the ceiling in every attribute passes Check.
pub can_ever_tight :
    (l : Limits) (p : Peer) (n : Need)
    → can_ever l n ≡ none
    → (p.user.proof ≡ l.best.user)
      × (p.process.proof ≡ l.best.process)
      × (p.path.proof ≡ l.best.path)
      × (p.package_.proof ≡ l.best.package_)
      × (p.code.proof ≡ l.best.code)
    → check p n ≡ none
can_ever_tight l p n h w =
    let k = (join-shortfalls (ceiling_comparisons l n)).0 (rw can_ever-shortfalls at h) in
    (check_iff p n).1 (omega arith)
