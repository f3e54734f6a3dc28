-- ===== src/Examples/Records.antt =====
-- The API's records at concrete inputs.
use abstraction_identity.Base.{◌≡◌, refl, [], ◌++◌, Str, codes, some, arith}
use abstraction_identity.Api.Utf8.{valid_utf8}
use abstraction_identity.Api.Read.{got, skip_ws, expect, str_loop, str}
use abstraction_identity.Api.Words.{
  word_in, value_in, wire_name, parse_proof, known, member_of, at_end,
}
use abstraction_identity.Api.Records.{
  ProofRequirement, ProofFailure, all_known, encode, enc_failure, decode_failure, fresh, word_value,
  requirement_field, member_key, one_member, members, inside, object, required, checked,
  requirement_of, decode_requirement, decode_buffer, decode,
}
use abstraction_identity.Api.Decoded.{decode-encode}
use abstraction_identity.Api.Canonical.{decode_canonical}
use abstraction_identity.Api.Failure.{decode_failure-enc_failure}

abbrev requirement : ProofRequirement
requirement = record { user = 8; process = 7; path = 6; package_ = 1; code = 9 }

decode-encode_example : (t : Str) × (encode requirement ≡ some t) × (decode t ≡ got requirement [])
unfolding all_known known wire_name word_in
decode-encode_example = decode-encode requirement refl

-- The same requirement in another order, with other white space.
abbrev shuffled : Str
shuffled =
    codes "{\"code\":\"signed\", \"user\" :\"kernel\",\"process\":\"bound\","
    ++ codes "\"path\":\"pid\",\"package\":\"none\"} "

decode_canonical_example :
    (t : Str) × (encode requirement ≡ some t) × (decode t ≡ got requirement [])
unfolding all_known known wire_name word_in value_in parse_proof member_of at_end fresh word_value
    requirement_field member_key one_member members inside object required checked requirement_of
    decode_requirement decode_buffer decode skip_ws expect str_loop str valid_utf8
decode_canonical_example = decode_canonical shuffled requirement [] refl

abbrev failure : ProofFailure
failure = record { attribute = codes "path"; have = 6; need = 8; why = codes "a \"quoted\" name" }

decode_failure-enc_failure_example :
    (t : Str) × (enc_failure failure 1 ≡ some t)
    × (decode_failure 99 1 (t ++ codes ", 1") ≡ got failure (codes ", 1"))
unfolding valid_utf8 known wire_name word_in
decode_failure-enc_failure_example =
    decode_failure-enc_failure failure 1 99 (codes ", 1") refl refl refl (omega arith)
