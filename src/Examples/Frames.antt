-- ===== src/Examples/Frames.antt =====
-- Frames and refusals at concrete inputs.
use abstraction_identity.Base.{◌≡◌, ◌≢◌, ◌≤◌, ◌⊎◌, [], ◌∷◌, ◌++◌, codes, take, none, arith}
use abstraction_identity.Examples.Samples.{log_writer-Took, log_writer}
use abstraction_identity.Errors.{sentinel, eof, proof, refusal}
use abstraction_identity.Listen.Wire.{put_uint32}
use abstraction_identity.Listen.Frame.{frame, no_frame, read_frame, write_headed_count}
use abstraction_identity.Listen.Frame.Write.{write_headed_count-log}
use abstraction_identity.Listen.Frame.RoundTrip.{read_frame-written, read_frame-refusal}
use abstraction_identity.Listen.Refusal.{proof_refusal_bytes}
use abstraction_identity.Listen.Refusal.Tokens.{disclosed}

write_headed_count-log_example :
    let r = write_headed_count log_writer 3 (7 ∷ 8 ∷ 9 ∷ []) [] in
    (r.count ≤ 7)
    × (r.state ≡ take r.count (put_uint32 3 ++ (7 ∷ 8 ∷ 9 ∷ [])))
    × ((r.error ≢ none) ⊎ (r.count ≡ 7))
write_headed_count-log_example =
    write_headed_count-log log_writer (λ t. t) log_writer-Took 3 (7 ∷ 8 ∷ 9 ∷ []) []

read_frame-written_example :
    read_frame (record { pending = 0 ∷ 0 ∷ 0 ∷ 2 ∷ 7 ∷ 8 ∷ 9 ∷ []; ending = sentinel eof }) 1024
    ≡ frame (7 ∷ 8 ∷ []) (record { pending = 9 ∷ []; ending = sentinel eof })
read_frame-written_example =
    read_frame-written (7 ∷ 8 ∷ []) (9 ∷ []) (sentinel eof) 1024 (omega arith) (omega arith)

read_frame-refusal_example :
    read_frame
      (record {
        pending =
            proof_refusal_bytes
              (proof (record { attribute = codes "path"; want = 6; got = 5; why = [] }))
            ++ [];
        ending = sentinel eof;
      })
      1024
    ≡ no_frame (
        refusal
          (disclosed (proof (record { attribute = codes "path"; want = 6; got = 5; why = [] }))))
read_frame-refusal_example =
    read_frame-refusal (proof (record { attribute = codes "path"; want = 6; got = 5; why = [] })) []
      (sentinel eof) 1024
