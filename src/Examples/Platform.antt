-- ===== src/Examples/Platform.antt =====
-- Server connections, path identity and the Linux loopback binding at concrete inputs.
use abstraction_identity.Base.{
  ◌≡◌, ◌<◌, ◌⊎◌, inl, inr, refl, sym, Bool, true, false, [], ◌∷◌, Str, codes, length, none, some,
  arith,
}
use abstraction_identity.Proof.{at_least}
use abstraction_identity.Program.{
  cut_prefix, has_control, same_subject_program, same_normalized_subject_program,
  same_normalized_keyed, comparable_subject_program, normalize_subject_program,
  valid_subject_program,
}
use abstraction_identity.Listen.Server.{
  validate, has_nul, check, check_values, check_locked, other_principal, other_process,
}
use abstraction_identity.Listen.Server.Dial.{
  Dial, bound, connect, dial_server, authenticated, authenticate, authenticate_bound, IsTrusted,
  connect-IsTrusted,
}
use abstraction_identity.PathIdentity.{Tree, answer, within_resolved}
use abstraction_identity.PathIdentity.Ancestors.{Verdict, within_resolved_lem}
use abstraction_identity.Linux.Loopback.{
  TcpRow, row, Pinned, Sight, World, recheck, check_row, check_scan, check_holders, is_alone,
  bind_loopback, bind_row, bind_holders, bind_holder, bind_image,
}
use abstraction_identity.Linux.Loopback.Recheck.{Fine, recheck-Fine}
use abstraction_identity.Linux.Loopback.Bind.{IsBound, bind_loopback-IsBound}
use abstraction_identity.Examples.Samples.{peer, files, expectation, conn}

abbrev dial : Dial
dial = record {
  dialled = none;
  deadline = none;
  context = none;
  bind = bound peer;
  checked = none;
  recheck = none;
  stopped = none;
}

connect-IsTrusted_example : (false ≡ false) × IsTrusted files expectation dial conn
unfolding connect dial_server validate has_nul authenticated authenticate authenticate_bound
    check_locked check check_values at_least other_principal other_process same_subject_program
    same_normalized_subject_program same_normalized_keyed comparable_subject_program
    normalize_subject_program valid_subject_program cut_prefix has_control
connect-IsTrusted_example = connect-IsTrusted files false expectation dial conn refl

-- A tree of one level: the root, and everything right below it.
abbrev flat : Tree
flat = record {
  local = λ p. true;
  file_key = λ p. some p;
  resolve_links = λ p. some p;
  path_exists = λ p. true;
  missing = λ p. false;
  abs = λ p. some p;
  clean = λ p. p;
  dir = λ p. codes "/";
  base = λ p. p;
  join = λ p q. q;
  separator = b'/';
}

abbrev IsSlash : Str → Type 0
IsSlash p = (p ≡ codes "/") ⊎ (1 < length p)

up_flat :
    (p : Str)
    → IsSlash p
    → IsSlash (codes "/") × ((codes "/" ≡ p) ⊎ (length (codes "/") < length p))
up_flat p (inl q) = (inl refl, inl (sym q))
up_flat p (inr more) = (inl refl, inr more)

within_resolved_lem_example :
    (r : Str × Bool) × (within_resolved flat (codes "/app") (codes "/") ≡ answer r)
    × Verdict flat (codes "/app") (codes "/") (codes "/") r
within_resolved_lem_example =
    within_resolved_lem flat (codes "/app") (codes "/") IsSlash up_flat (inr (omega arith))

abbrev one_row : TcpRow
one_row = record { established = true; uid = 1000; inode = 42 }

abbrev socket : Pinned
socket = record { inode = 42; uid = 1000; pid = 7; exe = codes "/app" }

abbrev sight : Sight
sight = record {
  looked = row (some one_row);
  holders = some (7 ∷ []);
  again = row none;
  exe = some (codes "/app");
}

recheck-Fine_example : Fine socket sight
unfolding recheck check_row check_scan check_holders is_alone
recheck-Fine_example = recheck-Fine socket sight refl

abbrev world : World
world = record {
  supported = true;
  looked = row (some one_row);
  self_uid = 1000;
  holders = some (7 ∷ []);
  pidfd = true;
  alive = true;
  holds = true;
  exe = some (codes "/app", false);
  started = some 5;
  connected_at = 9;
  sight = sight;
}

bind_loopback-IsBound_example : IsBound 2 world socket false 5
unfolding bind_loopback bind_row bind_holders bind_holder bind_image recheck check_row check_scan
    check_holders is_alone
bind_loopback-IsBound_example = bind_loopback-IsBound 2 world socket false 5 refl
