-- ===== src/Helper.antt =====
-- helper.go: the check that a peer is this account's elevated helper.
use abstraction_identity.Base.{
  ℕ, ◌≤◌, ◌≡◌, ◌↔◌, Bool, true, false, not, ◌||◌, ltb, if◌then◌else◌, Str, codes, str_eq, is_empty,
  Option, none, some, arith, str_eq→eq, eq→str_eq,
}
use abstraction_identity.Proof.{proof_bound, proof_kernel, ProofError, proven, unproven, at_least}
use abstraction_identity.Errors.{Err, sentinel, not_helper, message, wrap, proof}
use abstraction_identity.Peer.Types.{Peer, User}
use abstraction_identity.Program.{Files, same_subject_program}

-- `highIntegrityRID`
abbrev pub high_integrity_rid : ℕ
high_integrity_rid = 0x3000

abbrev helper_error : Str → Option Err
helper_error text = some (message (sentinel not_helper) text)

abbrev helper_unproven : ProofError → Option Err
helper_unproven e = some (wrap (sentinel not_helper) (proof e))

-- The two tests of the principal.
unfoldable pub other_account : User → User → Bool
other_account u self =
    not (str_eq u.kind (codes "windows"))
    || (not (str_eq self.kind (codes "windows")) || (is_empty u.sid || not (str_eq u.sid self.sid)))

pub not_elevated : User → Bool
not_elevated u = not u.elevated || ltb u.integrity_rid high_integrity_rid

-- The process, then the path, then the program.
check_image : Files → Peer → Str → Option Err
check_image f peer program = elim (at_least peer.process proof_kernel) [
  | unproven e ↦ helper_unproven e
  | proven process ↦ elim (at_least peer.path proof_bound) [
    | unproven e ↦ helper_unproven e
    | proven path ↦
        if not (same_subject_program f path program)
        then helper_error (codes ": another program")
        else none
  ]
]

-- `CheckElevatedHelper`; `none` for the peer is nil.
unfoldable pub check_elevated_helper : Files → Option Peer → User → Str → Option Err
unfolding check_image
check_elevated_helper f none self program = helper_error (codes ": no peer")
check_elevated_helper f (some peer) self program = elim (at_least peer.user proof_kernel) [
  | unproven e ↦ helper_unproven e
  | proven u ↦
      if other_account u self
      then helper_error (codes ": another account")
      else if not_elevated u
      then helper_error (codes ": the token is not elevated at high integrity")
      else check_image f peer program
]

-- The helper rule: this Windows account, read at kernel; its token elevated at high integrity or
-- above; a process read at kernel; an image read at bound that is the program.
pub record IsElevatedHelper (f : Files) (peer : Peer) (self : User) (program : Str) : Type 0 where
  pub user_proof : proof_kernel ≤ peer.user.proof
  pub kind : peer.user.value.kind ≡ codes "windows"
  pub self_kind : self.kind ≡ codes "windows"
  pub sid_known : is_empty peer.user.value.sid ≡ false
  pub sid : peer.user.value.sid ≡ self.sid
  pub elevated : peer.user.value.elevated ≡ true
  pub integrity : high_integrity_rid ≤ peer.user.value.integrity_rid
  pub process_proof : proof_kernel ≤ peer.process.proof
  pub path_proof : proof_bound ≤ peer.path.proof
  pub image : same_subject_program f peer.path.value program ≡ true

same_account :
    (u self : User)
    → other_account u self ≡ false
    → (u.kind ≡ codes "windows")
      × (self.kind ≡ codes "windows")
      × (is_empty u.sid ≡ false)
      × (u.sid ≡ self.sid)
unfolding other_account
same_account u self h = (
  str_eq→eq _ _ (ground arith),
  str_eq→eq _ _ (ground arith),
  ground arith,
  str_eq→eq _ _ (ground arith),
)

same_account_back :
    (u self : User)
    → u.kind ≡ codes "windows"
    → self.kind ≡ codes "windows"
    → is_empty u.sid ≡ false
    → u.sid ≡ self.sid
    → other_account u self ≡ false
unfolding other_account
same_account_back u self a b c d = rw (eq→str_eq _ _ a, eq→str_eq _ _ b, c, eq→str_eq _ _ d)

helper_passed :
    (f : Files) (peer : Peer) (self : User) (program : Str)
    → check_elevated_helper f (some peer) self program ≡ none
    → IsElevatedHelper f peer self program
unfolding check_elevated_helper not_elevated at_least
helper_passed f peer self program h =
    let (a, b, c, d) = same_account peer.user.value self (ground arith) in
    record {
      user_proof = ground arith;
      kind = a;
      self_kind = b;
      sid_known = c;
      sid = d;
      elevated = ground arith;
      integrity = ground arith;
      process_proof = ground arith;
      path_proof = ground arith;
      image = ground arith;
    }

helper_passes :
    (f : Files) (peer : Peer) (self : User) (program : Str)
    → IsElevatedHelper f peer self program
    → check_elevated_helper f (some peer) self program ≡ none
unfolding check_elevated_helper not_elevated at_least
helper_passes f peer self program r = ground (
  arith,
  same_account_back peer.user.value self r.kind r.self_kind r.sid_known r.sid,
  r.user_proof,
  r.elevated,
  r.integrity,
  r.process_proof,
  r.path_proof,
  r.image,
)

-- The check passes exactly for a peer that the helper rule describes.
pub check_elevated_helper_iff :
    (f : Files) (peer : Peer) (self : User) (program : Str)
    → (check_elevated_helper f (some peer) self program ≡ none)
      ↔ IsElevatedHelper f peer self program
check_elevated_helper_iff f peer self program =
    (λ h. helper_passed f peer self program h, λ r. helper_passes f peer self program r)
