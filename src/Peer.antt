-- ===== src/Peer.antt =====
-- peer.go: what a service learned about a peer, policies (Need), and what a transport can prove
-- at best (Limits).
pub mod Types
pub mod Text
pub mod Policy
pub mod Verdict
use abstraction_identity.Base.{
  ℕ, Bool, true, false, List, [], ◌∷◌, ◌++◌, ltb, leb, if◌then◌else◌, Str, codes, Option, none,
  some,
}
use abstraction_identity.Proof.{
  Proof, proof_none, proof_pid, proof_string, ProofError, Attr, attr, Proven, proven, unproven,
  at_least,
}
use abstraction_identity.Errors.{Err, join}
use abstraction_identity.Peer.Types.{Peer, Code}

-- `Need`: the minimum proof for each attribute.
pub record Need : Type 0 where
  pub user : Proof
  pub process : Proof
  pub path : Proof
  pub package_ : Proof
  pub code : Proof

-- One `if` of `Peer.Check`: an attribute that the policy names and that falls short adds its error.
unfoldable pub need_error : {T : Type 0} → Attr T → Proof → List ProofError
need_error a want =
    if ltb proof_none want
    then elim (at_least a want) [ proven _ ↦ [] | unproven e ↦ e ∷ [] ]
    else []

-- `Peer.Check`
unfoldable pub check : Peer → Need → Option Err
unfolding need_error
check p n = join (
    need_error p.user n.user
    ++ (need_error p.process n.process
        ++ (need_error p.path n.path
            ++ (need_error p.package_ n.package_ ++ need_error p.code n.code))))

-- `Limits`; a key that the `Why` map lacks reads as the empty string.
pub record Limits : Type 0 where
  pub platform : Str
  pub best : Need
  pub why : Str → Str
  pub transport : Str
  pub bindable : Bool
  pub binding : Str
  pub stronger : Str

-- The closure `cmp` of `Limits.CanEver`.
unfoldable pub ceiling_error : Limits → Str → Proof → Proof → List ProofError
ceiling_error l name want have =
    if ltb have want
    then record { attribute = name; want = want; got = have; why = l.why name } ∷ []
    else []

-- `Limits.CanEver`
unfoldable pub can_ever : Limits → Need → Option Err
unfolding ceiling_error
can_ever l n = join (
    ceiling_error l (codes "user") n.user l.best.user
    ++ (ceiling_error l (codes "process") n.process l.best.process
        ++ (ceiling_error l (codes "path") n.path l.best.path
            ++ (ceiling_error l (codes "package") n.package_ l.best.package_
                ++ ceiling_error l (codes "code") n.code l.best.code))))

-- `Peer.recordCode` with `note`: a verdict below the pid rung keeps the platform's own wording as
-- its reason, and adds a note.
unfoldable pub record_code : Peer → Code → Proof → Str → Peer
record_code p c verdict verified_why =
    if leb proof_pid verdict
    then record p { code = attr (codes "code") c verdict verified_why }
    else record p {
      code = attr (codes "code") c verdict c.status;
      notes =
          p.notes
          ++ ((codes "code: "
                ++ (c.status
                    ++ (codes "; reported at \""
                        ++ (proof_string verdict
                            ++ codes "\", below every rung that implies verification"))))
              ∷ []);
    }
