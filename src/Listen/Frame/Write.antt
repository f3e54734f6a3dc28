-- ===== src/Listen/Frame/Write.antt =====
-- `writeHeadedCount` against any writer that keeps io.Writer's contract.
use abstraction_identity.Base.{
  ℕ, zero, suc, ◌+◌, ◌≤◌, ◌<◌, ◌≡◌, ◌≢◌, ◌⊎◌, inl, inr, refl, sym, ◌∙◌, ap, List, [], ◌∷◌, ◌++◌,
  leb, length, take, drop, length-drop, take-add, take-append, take-append_left, take-length,
  length-append, Option, none, some, arith, Bool-cases, Option-cases,
}
use mathlib.Core.Path.{subst}
use mathlib.Core.List.{append_assoc, append-nil}
use abstraction_identity.Errors.{Err, sentinel, short_write}
use abstraction_identity.Listen.Wire.{put_uint32}
use abstraction_identity.Listen.Stream.{taken, Writer}
use abstraction_identity.Listen.Frame.{
  Written, write_round, write_part, write_parts, headed_parts, write_headed_count,
}

-- One call of a writer that keeps the documented contract of io.Writer: it takes a prefix of what
-- it was given, of the length that it says. `log` is what the writer has taken so far.
pub record Took {S : Type 0} (w : Writer S) (log : S → List ℕ) (s : S) (part : List ℕ)
    : Type 0 where
  pub amount : ℕ
  pub said : (w.write s part).0 ≡ taken amount
  pub within : amount ≤ length part
  pub logged : log (w.write s part).2 ≡ log s ++ take amount part

-- The state and the count after a write of some of `bytes`.
pub record Progress {S : Type 0} (log : S → List ℕ) (s : S) (bytes : List ℕ) (before : ℕ)
    (r : Written S) : Type 0 where
  pub amount : ℕ
  pub counted : r.count ≡ before + amount
  pub within : amount ≤ length bytes
  pub logged : log r.state ≡ log s ++ take amount bytes
  pub complete : r.error ≡ none → amount ≡ length bytes

abbrev write_result : {S : Type 0} → ℕ → Option Err → S → Written S
write_result count e s = record { count = count; error = e; state = s }

-- The cases of one round that took `n` bytes.
round_cases :
    {S : Type 0} (w : Writer S) (part : List ℕ) (written n : ℕ) (e : Option Err) (s : S)
    (again : ℕ → Written S)
    → n ≤ length part
    → ((x : Err) × (write_round w part written (taken n) e s again
          ≡ write_result (written + n) (some x) s))
      ⊎ ((0 < n) × (write_round w part written (taken n) e s again ≡ again n))
unfolding write_round
round_cases w part written n (some x) s again h = inl (x, ground arith)
round_cases w part written zero none s again h = inl (sentinel short_write, ground arith)
round_cases w part written (suc n) none s again h = inr (omega arith, ground arith)

module _ {S : Type 0} (log : S → List ℕ) where
  stopped :
      (s s' : S) (part : List ℕ) (written n : ℕ) (x : Err)
      → n ≤ length part
      → log s' ≡ log s ++ take n part
      → Progress log s part written (write_result (written + n) (some x) s')
  stopped s s' part written n x h l = record {
    amount = n;
    counted = refl;
    within = h;
    logged = l;
    complete = λ e. cc;
  }

  went_on :
      (s s' : S) (part : List ℕ) (written n : ℕ) (r : Written S)
      → n ≤ length part
      → log s' ≡ log s ++ take n part
      → Progress log s' (drop n part) (written + n) r
      → Progress log s part written r
  went_on s s' part written n r h l p = record {
    amount = n + p.amount;
    counted = omega (arith, p.counted);
    within = omega (arith, p.within, length-drop n part);
    logged =
        p.logged
        ∙ ap (λ t. t ++ take p.amount (drop n part)) l
        ∙ append_assoc (log s) (take n part) (take p.amount (drop n part))
        ∙ ap (λ t. log s ++ t) (take-add n p.amount part);
    complete = λ e. omega (arith, p.complete e, length-drop n part);
  }

Progress-facts :
    {S : Type 0} (log : S → List ℕ) (s : S) (bytes : List ℕ) (r : Written S)
    → Progress log s bytes 0 r
    → (r.count ≤ length bytes)
      × (log r.state ≡ log s ++ take r.count bytes)
      × ((r.error ≢ none) ⊎ (r.count ≡ length bytes))
Progress-facts log s bytes r p =
    let e : r.count ≡ p.amount = omega (arith, p.counted) in
    (
      omega (arith, p.within),
      p.logged ∙ ap (λ t. log s ++ take t bytes) (sym e),
      elim (Option-cases r.error) [
        | inl q ↦ inr (omega (arith, p.complete q))
        | inr (x, q) ↦ inl (λ h. cc)
      ],
    )

abbrev all_parts : List (List ℕ) → List ℕ
all_parts [] = []
all_parts (part ∷ parts) = part ++ all_parts parts

all_headed_parts :
    {S : Type 0} (w : Writer S) (header : ℕ) (frame : List ℕ)
    → all_parts (headed_parts w header frame) ≡ put_uint32 header ++ frame
unfolding headed_parts
all_headed_parts w header frame = elim (Bool-cases (leb (length frame) 65536)) [
  | inl e ↦ rw (e, append-nil)
  | inr e ↦ rw (e, append-nil)
]

module _ {S : Type 0} (w : Writer S) (log : S → List ℕ)
    (contract : (s : S) (part : List ℕ) → Took w log s part) where
  write_part-Progress :
      (fuel : ℕ) (part : List ℕ) (written : ℕ) (s : S)
      → length part < fuel
      → Progress log s part written (write_part w fuel part written s)
  unfolding write_part
  write_part-Progress zero part written s h = absurd (omega arith)
  write_part-Progress (suc fuel) [] written s h = record {
    amount = 0;
    counted = omega arith;
    within = omega arith;
    logged = sym (append-nil (log s));
    complete = λ _. refl;
  }
  write_part-Progress (suc fuel) (b ∷ bs) written s h =
      let k = contract s (b ∷ bs) in
      let (t, e, s') = w.write s (b ∷ bs) in
      let again : ℕ → Written S = λ n. write_part w fuel (drop n (b ∷ bs)) (written + n) s' in
      rw k.said (elim (round_cases w (b ∷ bs) written k.amount e s' again k.within) [
        | inl (x, q) ↦ rw q (stopped log s s' (b ∷ bs) written k.amount x k.within k.logged)
        | inr (some_taken, q) ↦ rw q (
            went_on log s s' (b ∷ bs) written k.amount (again k.amount) k.within k.logged (
              write_part-Progress fuel (drop k.amount (b ∷ bs)) (written + k.amount) s'
                (omega (arith, length-drop k.amount (b ∷ bs)))))
      ])

  -- Two parts, one behind the other.
  joined :
      (s : S) (part more : List ℕ) (before : ℕ) (m r : Written S)
      → Progress log s part before m
      → m.error ≡ none
      → Progress log m.state more m.count r
      → Progress log s (part ++ more) before r
  joined s part more before m r p ok q = record {
    amount = length part + q.amount;
    counted = omega (arith, p.counted, p.complete ok, q.counted);
    within = omega (arith, q.within, length-append part more);
    logged =
        q.logged
        ∙ ap (λ t. t ++ take q.amount more)
            (p.logged
              ∙ ap (λ t. log s ++ t) (take-length p.amount part (omega (arith, p.complete ok))))
        ∙ append_assoc (log s) part (take q.amount more)
        ∙ ap (λ t. log s ++ t) (take-append q.amount part more);
    complete = λ e. omega (arith, q.complete e, length-append part more);
  }

  -- A first part that did not end well, seen as progress on both.
  broke :
      (s : S) (part more : List ℕ) (before : ℕ) (m : Written S) (x : Err)
      → Progress log s part before m
      → m.error ≡ some x
      → Progress log s (part ++ more) before m
  broke s part more before m x p bad = record {
    amount = p.amount;
    counted = p.counted;
    within = omega (arith, p.within, length-append part more);
    logged = p.logged ∙ ap (λ t. log s ++ t) (take-append_left p.amount part more p.within);
    complete = λ e. cc;
  }

  write_parts-Progress :
      (parts : List (List ℕ)) (written : ℕ) (s : S)
      → Progress log s (all_parts parts) written (write_parts w parts written s)
  unfolding write_parts
  write_parts-Progress [] written s = record {
    amount = 0;
    counted = omega arith;
    within = omega arith;
    logged = sym (append-nil (log s));
    complete = λ _. refl;
  }
  write_parts-Progress (part ∷ parts) written s =
      let m = write_part w (suc (length part)) part written s in
      let p = write_part-Progress (suc (length part)) part written s (omega arith) in
      elim (Option-cases m.error) [
        | inl ok ↦
            rw (ok, write_parts)
              (joined s part (all_parts parts) written m (write_parts w parts m.count m.state) p ok
                (write_parts-Progress parts m.count m.state))
        | inr (x, bad) ↦ rw (bad, write_parts) (broke s part (all_parts parts) written m x p bad)
      ]

  -- Whatever a contract-keeping writer does, the count that writeHeadedCount reports is the number
  -- of bytes of header and payload that the writer took, in order and with nothing else between
  -- them; and unless an error is reported it took them all.
  pub write_headed_count-log :
      (header : ℕ) (frame : List ℕ) (s : S)
      → let r = write_headed_count w header frame s in
        (r.count ≤ length (put_uint32 header ++ frame))
        × (log r.state ≡ log s ++ take r.count (put_uint32 header ++ frame))
        × ((r.error ≢ none) ⊎ (r.count ≡ length (put_uint32 header ++ frame)))
  unfolding write_headed_count
  write_headed_count-log header frame s =
      Progress-facts log s (put_uint32 header ++ frame) (write_headed_count w header frame s) (
        subst (λ t. Progress log s t 0 (write_headed_count w header frame s))
          (all_headed_parts w header frame)
          (write_parts-Progress (headed_parts w header frame) 0 s))
