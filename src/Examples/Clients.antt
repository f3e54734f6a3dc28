-- ===== src/Examples/Clients.antt =====
-- A client's calls at concrete inputs.
use abstraction_identity.Base.{
  ℕ, ◌≡◌, ◌≤◌, refl, Bool, true, false, List, [], ◌∷◌, ◌==◌, none, arith, if◌then◌else◌,
}
use abstraction_identity.Errors.{sentinel, eof}
use abstraction_identity.Listen.Stream.{read_full}
use abstraction_identity.Listen.Frame.{
  write_headed_count, write_parts, write_part, write_round, headed_parts,
}
use abstraction_identity.Listen.Session.Call.{
  new_call, read, read_request, write, write_header, write_body, write_end, close,
}
use abstraction_identity.Listen.Session.Call.Exchange.{Use, reads, writes, use_all}
use abstraction_identity.Listen.Client.{Attempt, read_uint32, turn, session_call}
use abstraction_identity.Listen.Client.Reply.{Received, exchange_received}
use abstraction_identity.Listen.Client.Once.{is_marked, sent_marker, served, session_call_once}
use abstraction_identity.Examples.Samples.{log_writer, no_platform, request, attempt}

-- A handler that reads the request's two bytes and answers with one.
abbrev echo : List Use
echo =
    reads 4 4 none false false
    ∷ reads 8 8 none false false
    ∷ writes (0 ∷ 0 ∷ 0 ∷ 1 ∷ 5 ∷ []) false none 0 none
    ∷ []

abbrev answer : List ℕ
answer = 128 ∷ 0 ∷ 0 ∷ 1 ∷ 5 ∷ []

exchange_received_example :
    Received request
      (attempt true answer)
      answer
      (turn log_writer no_platform request (attempt true answer))
unfolding use_all new_call read read_request write write_header write_body write_end close
    write_headed_count write_parts write_part write_round headed_parts
exchange_received_example =
    exchange_received log_writer no_platform request (attempt true answer) (sentinel eof) 0x80000002
      (7 ∷ 8 ∷ []) echo false none refl refl refl (omega arith) (omega arith) (omega arith)
      (record { pooled = refl; usable = refl; written = refl; reads = refl })

-- Two servers answer with the closing marker, the third one takes the request.
abbrev calls : Bool → Attempt (List ℕ)
calls third = attempt true (if third then answer else 255 ∷ 255 ∷ 255 ∷ 255 ∷ [])

honest_calls : (third : Bool) → sent_marker (calls third) ≡ true → third ≡ false
unfolding sent_marker is_marked read_uint32 read_full
honest_calls true h = cc
honest_calls false h = refl

session_call_once_example :
    served (λ i. i == 2) (session_call log_writer no_platform request (λ i. calls (i == 2))).rounds
    ≤ 1
session_call_once_example =
    session_call_once log_writer no_platform request (λ i. calls (i == 2)) (λ i. i == 2)
      (λ i h. honest_calls (i == 2) h)
