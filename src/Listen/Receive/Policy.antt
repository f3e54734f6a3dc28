-- ===== src/Listen/Receive/Policy.antt =====
-- What a call that ReceiveFramed accepted has been checked for.
use abstraction_identity.Base.{
  ℕ, ◌≤◌, ◌≡◌, inl, inr, refl, sym, false, not, ◌&&◌, List, [], ◌++◌, ◌==◌, if◌then◌else◌, length,
  take, drop, length-take, take-append-drop, Option, none, arith, Bool-cases, Option-cases,
}
use abstraction_identity.Errors.{Err}
use abstraction_identity.Peer.{Need}
use abstraction_identity.Peer.Policy.{Meets}
use abstraction_identity.Binding.{Binding, BindingState}
use abstraction_identity.Binding.Lifetime.{check_binding_iff}
use abstraction_identity.Listen.Wire.{
  session_closing, session_unsupported, has_session, masked, put_uint32,
}
use abstraction_identity.Listen.Stream.{Input, read_full}
use abstraction_identity.Listen.Frame.{Frame, frame, no_frame, read_frame_body}
use abstraction_identity.Listen.Client.{Word, word, no_word, read_uint32}
use abstraction_identity.Listen.Receive.{
  Bound, bind_failed, bound, bind_check, Arrival, accepted, fail, admit_body, admit_length,
  admit_header, receive_framed,
}

-- The body is the bytes behind the header, as many as it says, and no more than the limit.
pub record IsBody (rest : Input) (n limit : ℕ) (body : List ℕ) : Type 0 where
  pub counted : length body ≡ n
  pub within : n ≤ limit
  pub behind : List ℕ
  pub bytes : rest.pending ≡ body ++ behind

-- The caller is bound, its binding is open and stands up to the platform's recheck, and its peer
-- meets the policy.
pub record IsChecked (b : Bound) (need : Need) : Type 0 where
  pub binding : Binding
  pub state : BindingState
  pub answer : Option Err
  pub bound_to : b ≡ bound binding state answer
  pub open_ : state.closed ≡ false
  pub found : answer ≡ none
  pub meets : Meets binding.peer need

read_frame_body-IsBody :
    (i : Input) (n limit : ℕ) (body : List ℕ) (rest : Input)
    → read_frame_body i n limit ≡ frame body rest
    → IsBody i n limit body
unfolding read_frame_body read_full
read_frame_body-IsBody i n limit body rest h =
    let e : body ≡ take n i.pending = ground arith in
    record {
      counted = ground (arith, length-take n i.pending);
      within = ground arith;
      behind = drop n i.pending;
      bytes = rw e (sym (take-append-drop n i.pending));
    }

bind_check-IsChecked : (b : Bound) (need : Need) → bind_check b need ≡ none → IsChecked b need
unfolding bind_check
bind_check-IsChecked (bind_failed e) need h = cc
bind_check-IsChecked (bound b s answer) need h =
    let (open_, found, meets) = (check_binding_iff b s need answer).0 h in
    record {
      binding = b;
      state = s;
      answer = answer;
      bound_to = refl;
      open_ = open_;
      found = found;
      meets = meets;
    }

module _ (a : Arrival) (need : Need) (limit : ℕ) where
  -- What an accepted call behind its header has passed.
  pub record IsAdmitted (n : ℕ) (rest : Input) (body : List ℕ) : Type 0 where
    pub still_open : a.closed ≡ false
    pub checked : IsChecked a.bind need
    pub is_body : IsBody rest n limit body
    pub valid : a.valid ≡ none
    pub context : a.context_after ≡ none

  body_accepted :
      (f : Frame) (before body sent : List ℕ)
      → admit_body a need limit before f ≡ accepted body sent
      → (rest : Input) × (f ≡ frame body rest)
        × (a.valid ≡ none)
        × (a.context_after ≡ none)
        × (sent ≡ before)
  unfolding admit_body fail
  body_accepted (no_frame e) before body sent h = cc
  body_accepted (frame bytes rest) before body sent h =
      (rest, ground arith, ground arith, ground arith, ground arith)

  length_accepted :
      (before : List ℕ) (n : ℕ) (rest : Input) (body sent : List ℕ)
      → admit_length a need limit before n rest ≡ accepted body sent
      → IsAdmitted n rest body × (sent ≡ before)
  unfolding admit_length fail
  length_accepted before n rest body sent h = elim (Option-cases (bind_check a.bind need)) [
    | inr (e, bad) ↦ absurd (ground arith)
    | inl good ↦
        let (after, read, valid, context, same) =
          body_accepted (read_frame_body rest n limit) before body sent (ground arith) in
        (
          record {
            still_open = ground arith;
            checked = bind_check-IsChecked a.bind need good;
            is_body = read_frame_body-IsBody rest n limit body after read;
            valid = valid;
            context = context;
          },
          same,
        )
  ]

  -- The length that a header gives, and what the receiver answered to it.
  abbrev pub length_of : ℕ → ℕ
  length_of n = if has_session n && not (n == session_closing) then masked n else n

  abbrev pub answer_to : ℕ → List ℕ
  answer_to n =
      if has_session n && not (n == session_closing) then put_uint32 session_unsupported else []

  header_accepted :
      (n : ℕ) (rest : Input) (body sent : List ℕ)
      → admit_header a need limit (word n rest) ≡ accepted body sent
      → IsAdmitted (length_of n) rest body × (sent ≡ answer_to n)
  unfolding admit_header fail
  header_accepted n rest body sent h =
      elim (Bool-cases (has_session n && not (n == session_closing))) [
        | inl s ↦ rw s (length_accepted _ (masked n) rest body sent (ground arith))
        | inr p ↦ rw p (length_accepted [] n rest body sent (ground arith))
      ]

  word_accepted :
      (x : Word) (body sent : List ℕ)
      → admit_header a need limit x ≡ accepted body sent
      → (n : ℕ) × (rest : Input) × (x ≡ word n rest)
        × IsAdmitted (length_of n) rest body
        × (sent ≡ answer_to n)
  unfolding admit_header fail
  word_accepted (no_word k e) body sent h = cc
  word_accepted (word n rest) body sent h =
      let k = header_accepted n rest body sent h in (n, rest, refl, k.0, k.1)

  -- A call that ReceiveFramed hands out: its header was read, its frame is the bytes behind the
  -- header, as many as the header says and no more than the limit; the call was still open, its
  -- caller is bound to a binding that is open and that the platform's recheck finds nothing
  -- against, and the captured peer meets the policy; the session it came on, if any, was still
  -- valid, and its context had not ended at the start nor at the end. All that the caller was sent
  -- is the answer that sessions are not served, and only where it asked for one.
  pub receive_accepted :
      (body sent : List ℕ)
      → receive_framed a need limit ≡ accepted body sent
      → (n : ℕ) × (rest : Input) × (read_uint32 a.input ≡ word n rest)
        × IsAdmitted (length_of n) rest body
        × (sent ≡ answer_to n)
        × (a.context_before ≡ none)
  unfolding receive_framed fail
  receive_accepted body sent h =
      let (n, rest, w, k, s) = word_accepted (read_uint32 a.input) body sent (ground arith) in
      (n, rest, w, k, s, ground arith)
