-- ===== src/Examples/Sockets.antt =====
-- Unix sockets on Linux and the verdicts on Windows at concrete inputs.
use abstraction_identity.Base.{
  ◌≡◌, ◌≢◌, ◌↔◌, ◌≤◌, ◌<◌, ◌+◌, refl, true, false, [], ◌∷◌, Str, codes, pos, none, some, Option,
}
use mathlib.Core.List.{Memᴰ}
use abstraction_identity.Peer.Types.{Peer}
use abstraction_identity.Peer.Policy.{Within}
use abstraction_identity.Linux.Proc.{alive, pidfd_alive, strip_deleted}
use abstraction_identity.Linux.Unix.{
  answer, failed, Handle, Identified, refused, identified, of_handle, of_ucred, require_accepted,
  ceiling,
}
use abstraction_identity.Linux.Unix.Evidence.{IsEvidence, of_handle-IsEvidence, of_handle-Within}
use abstraction_identity.Linux.Unix.Bind.{Pinned, Sight, recheck, bind_handle}
use abstraction_identity.Linux.Unix.Bind.Outcomes.{Outcome, bind_handle-Outcome, recheck_iff}
use abstraction_identity.Windows.Verdicts.{
  Key, key_eq, Cache, find_entry, is_working, begin, begin_working, keep_found, keep_verdict,
  keep_held, drop_old, sweep, make_room, insert, code_verdict_lifetime,
}
use abstraction_identity.Windows.Verdicts.Accounts.{Tidy}
use abstraction_identity.Windows.Verdicts.Reuse.{
  Verified, Run, started, began, kept, From, run-Tidy, keep_verdict-total, begin-reused,
}
use abstraction_identity.Examples.Samples.{peer}

-- A socket whose peer is alive behind its pidfd.
abbrev fdinfo : Option Str
fdinfo = some (codes "Pid: 7")

abbrev socket : Handle
socket = record {
  now = 90;
  domain = answer 1;
  listening = answer 0;
  ucred = answer (record { pid = pos 7; uid = 1000; gid = 1000 });
  label = failed (codes "no label");
  pidfd = answer 5;
  fdinfo = fdinfo;
  check = λ a. [];
  started = some 10;
  exe = answer (codes "/app");
  flatpak = none;
  cgroup = none;
  fdinfo_after = fdinfo;
  quote = λ s. s;
  format = λ t. [];
}

abbrev peer_in : Identified → Peer
peer_in (identified p) = p
peer_in (refused e) = peer

of_handle-IsEvidence_example : IsEvidence socket (peer_in (of_handle socket 20))
unfolding of_handle of_ucred require_accepted
of_handle-IsEvidence_example = of_handle-IsEvidence socket 20 (peer_in (of_handle socket 20)) refl

of_handle-Within_example :
    Within (peer_in (of_handle socket 20)) (ceiling (true, []) (false, codes "no LSM"))
unfolding of_handle of_ucred require_accepted
of_handle-Within_example =
    of_handle-Within (true, []) (false, codes "no LSM") socket (λ fd given. refl) 20
      (peer_in (of_handle socket 20)) refl

bind_handle-Outcome_example : Outcome true socket socket 20 (bind_handle true socket socket 20)
bind_handle-Outcome_example = bind_handle-Outcome true socket socket 20

abbrev pinned : Pinned
pinned = record { pidfd = some 5; pid = pos 7; exe = codes "/app"; closed = [] }

abbrev moved : Sight
moved = record { fdinfo = fdinfo; exe = answer (codes "/other") }

recheck_iff_example :
    recheck pinned moved ≢ none
    ↔ (pidfd_alive fdinfo (pos 7) ≡ alive)
      × ((link : Str) × (answer (codes "/other") ≡ answer link)
          × ((strip_deleted link).0 ≢ codes "/app"))
recheck_iff_example = recheck_iff pinned moved

-- One verification, kept, behind the handle 4.
abbrev key : Key
key = record { pid = 7; started = pos 10; image = codes "/app"; revocation = false }

abbrev verified : Verified
verified = record { key = key; code = peer.code.value; verdict = 3; at = 100 }

abbrev cache : Cache
cache = record {
  entries = (key, record { proc = 4; code = peer.code.value; verdict = 3; at = 100 }) ∷ [];
  working = key ∷ [];
  opened = 4 ∷ [];
  closed = [];
}

one_kept : Run (verified ∷ []) cache
unfolding begin begin_working find_entry is_working keep_found keep_verdict keep_held drop_old sweep
    make_room insert
one_kept = kept verified (λ h. false) (some 4) (some (pos 10)) refl (began key 90 started)

run-Tidy_example : Tidy (From (verified ∷ [])) [] cache
run-Tidy_example = run-Tidy one_kept

keep_verdict-total_example :
    (s' : Cache) × (keep_verdict
        (λ h. false)
        key
        (some 6)
        (some (pos 10))
        peer.code.value
        3
        100
        cache
      ≡ some s')
    × Run (verified ∷ (verified ∷ [])) s'
keep_verdict-total_example =
    keep_verdict-total verified (λ h. false) (some 6) (some (pos 10)) one_kept

begin-reused_example :
    Memᴰ verified (verified ∷ []) × (100 ≤ 200) × (200 < 100 + code_verdict_lifetime)
unfolding begin find_entry key_eq
begin-reused_example = begin-reused key 200 peer.code.value 3 100 one_kept refl
