-- ===== src/Examples/Receives.antt =====
-- ReceiveFramed at concrete inputs.
use abstraction_identity.Base.{
  ℕ, ◌≡◌, refl, true, false, List, [], ◌∷◌, ◌++◌, codes, none, some, arith,
}
use abstraction_identity.Proof.{at_least}
use abstraction_identity.Errors.{Err, sentinel, eof, proofs, refusal}
use abstraction_identity.Peer.{check, need_error}
use abstraction_identity.Binding.{opened, check_binding, peer_of}
use abstraction_identity.Listen.Wire.{session_unsupported, put_uint32}
use abstraction_identity.Listen.Stream.{Input, read_full}
use abstraction_identity.Listen.Frame.{read_frame_body}
use abstraction_identity.Listen.Refusal.{proof_refusal_bytes}
use abstraction_identity.Listen.Refusal.Tokens.{disclosed}
use abstraction_identity.Listen.Client.{
  word, read_uint32, closed, session_call, write_all, write_all_loop, write_all_round,
}
use abstraction_identity.Listen.Receive.{
  Arrival, bound, bind_check, rejected, admit_body, admit_length, admit_header, receive_framed,
}
use abstraction_identity.Listen.Receive.Policy.{IsAdmitted, length_of, answer_to, receive_accepted}
use abstraction_identity.Listen.Receive.Refused.{refused_caller_learns}
use abstraction_identity.Examples.Samples.{
  need, need_code, binding, log_writer, no_platform, request, attempt,
}

abbrev pub arrival : List ℕ → Arrival
arrival pending = record {
  context_before = none;
  context_after = none;
  context_failed = none;
  late = false;
  has_deadline = true;
  deadline = none;
  input = record { pending = pending; ending = sentinel eof };
  answer = none;
  closed = false;
  bind = bound binding opened none;
  valid = none;
}

abbrev pub two_bytes : Arrival
two_bytes = arrival (0 ∷ 0 ∷ 0 ∷ 2 ∷ 7 ∷ 8 ∷ [])

receive_accepted_example :
    (n : ℕ) × (rest : Input) × (read_uint32 two_bytes.input ≡ word n rest)
    × IsAdmitted two_bytes need 100 (length_of two_bytes need 100 n) rest (7 ∷ 8 ∷ [])
    × ([] ≡ answer_to two_bytes need 100 n)
    × (two_bytes.context_before ≡ none)
unfolding receive_framed admit_header admit_length admit_body bind_check check_binding peer_of check
    need_error at_least read_uint32 read_full read_frame_body
receive_accepted_example = receive_accepted two_bytes need 100 (7 ∷ 8 ∷ []) [] refl

abbrev unmet : Err
unmet =
    proofs (record { attribute = codes "code"; want = 5; got = 0; why = codes "not examined" } ∷ [])

abbrev wants_session : Arrival
wants_session = arrival (128 ∷ 0 ∷ 0 ∷ 2 ∷ [])

abbrev refused_bytes : List ℕ
refused_bytes = put_uint32 session_unsupported ++ proof_refusal_bytes unmet

refused_caller_learns_example :
    (receive_framed wants_session need_code 100 ≡ rejected unmet refused_bytes)
    × (session_call log_writer no_platform request (λ i. attempt false refused_bytes) ≡ record {
      error = some (refusal (disclosed unmet));
      reply = [];
      rounds = 1;
      single = true;
      fate = closed;
    })
unfolding read_uint32 read_full check need_error at_least write_all write_all_loop write_all_round
refused_caller_learns_example =
    refused_caller_learns log_writer no_platform request (λ i. attempt false refused_bytes)
      wants_session need_code 100 unmet (sentinel eof)
      (record {
        started = refl;
        running = refl;
        timed = refl;
        deadline = refl;
        header = 0x80000002;
        rest = record { pending = []; ending = sentinel eof };
        read = refl;
        asks = refl;
        begins = refl;
        told = refl;
        fits = omega arith;
        open_ = refl;
        binding = binding;
        state = opened;
        bound_to = refl;
        binding_open = refl;
        unmet = refl;
      })
      (record {
        fresh = refl;
        dialled = refl;
        usable = refl;
        header_written = refl;
        body_written = refl;
        reads = refl;
      })
