-- ===== src/Peer/Verdict.antt =====
-- What a recorded code verdict is worth to a policy.
use abstraction_identity.Base.{◌≤◌, ◌<◌, ◌≡◌, ◌≢◌, Str, none, arith}
use abstraction_identity.Proof.{Proof, proof_pid}
use abstraction_identity.Peer.Types.{Peer, Code}
use abstraction_identity.Peer.{Need, check, record_code}
use abstraction_identity.Peer.Policy.{check_iff}

record_code_proof :
    (p : Peer) (c : Code) (v : Proof) (why : Str) → (record_code p c v why).code.proof ≡ v
unfolding record_code
record_code_proof p c v why = ground arith

record_code-why :
    (p : Peer) (c : Code) (v : Proof) (why : Str)
    → v < proof_pid
    → (record_code p c v why).code.why ≡ c.status
unfolding record_code
record_code-why p c v why h = ground arith

-- A signature that the platform examined and did not accept (a verdict below the pid rung) never
-- passes a policy that asks for the pid rung or above on Code, whatever else the peer proves.
pub rejected_code-check :
    (p : Peer) (c : Code) (verdict : Proof) (verified_why : Str) (n : Need)
    → verdict < proof_pid
    → proof_pid ≤ n.code
    → check (record_code p c verdict verified_why) n ≢ none
rejected_code-check p c verdict verified_why n low asks passed = omega (
  arith,
  record_code_proof p c verdict verified_why,
  (check_iff (record_code p c verdict verified_why) n).0 passed,
)
