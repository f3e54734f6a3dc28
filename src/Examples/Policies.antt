-- ===== src/Examples/Policies.antt =====
-- The ladder, policies, bindings and the helper rule at concrete inputs.
use abstraction_identity.Base.{◌≡◌, ◌↔◌, refl, true, [], ◌∷◌, none, some, arith}
use abstraction_identity.Proof.{at_least}
use abstraction_identity.Errors.{join}
use abstraction_identity.Peer.{need_error, check, can_ever}
use abstraction_identity.Peer.Policy.{
  Meets, shortfalls, comparisons, check-shortfalls, check_iff, can_ever_sound,
}
use abstraction_identity.Binding.{owner, shared, opened, recheck_op, alive_op, close_op, run}
use abstraction_identity.Binding.Lifetime.{IsOrderly, handle_in_order}
use abstraction_identity.Helper.{check_elevated_helper, IsElevatedHelper, check_elevated_helper_iff}
use abstraction_identity.Examples.Samples.{image, user, peer, files, need, need_code, limits}

check_iff_example : (check peer need ≡ none) ↔ Meets peer need
check_iff_example = check_iff peer need

check-shortfalls_example : check peer need_code ≡ join (shortfalls (comparisons peer need_code))
check-shortfalls_example = check-shortfalls peer need_code

can_ever_sound_example : can_ever limits need ≡ none
unfolding check need_error at_least
can_ever_sound_example = can_ever_sound limits peer need (omega arith) refl

handle_in_order_example : IsOrderly (
    run opened (
      recheck_op shared none
      ∷ close_op shared none
      ∷ close_op owner none
      ∷ alive_op owner (true, none)
      ∷ []))
handle_in_order_example = handle_in_order (
    recheck_op shared none
    ∷ close_op shared none
    ∷ close_op owner none
    ∷ alive_op owner (true, none)
    ∷ [])

check_elevated_helper_iff_example :
    (check_elevated_helper files (some peer) user image ≡ none)
    ↔ IsElevatedHelper files peer user image
check_elevated_helper_iff_example = check_elevated_helper_iff files peer user image
