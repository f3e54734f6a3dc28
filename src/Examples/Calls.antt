-- ===== src/Examples/Calls.antt =====
-- One exchange of a session at concrete inputs.
use abstraction_identity.Base.{◌≡◌, ◌≤◌, refl, false, List, [], ◌∷◌, none}
use abstraction_identity.Listen.Session.Call.{
  new_call, read, read_request, write, write_header, write_body, write_end, close,
}
use abstraction_identity.Listen.Session.Call.Exchange.{
  Use, reads, writes, use_all, Completed, exchange_in_step,
}

abbrev handler : List Use
handler =
    reads 4 4 none false false
    ∷ reads 1 1 none false false
    ∷ reads 8 8 none false false
    ∷ writes (0 ∷ 0 ∷ 0 ∷ 1 ∷ []) false none 0 none
    ∷ writes (5 ∷ []) false none 1 none
    ∷ []

exchange_in_step_example :
    let c = use_all (new_call 0x80000002 (7 ∷ 8 ∷ [])) handler in
    (4 ≤ c.header_at) × (c.remaining ≡ 0) × Completed (close c false none)
unfolding use_all new_call read read_request write write_header write_body write_end close
exchange_in_step_example = exchange_in_step 0x80000002 (7 ∷ 8 ∷ []) handler false none refl refl
