-- ===== src/Tests/Witnesses/Sign.antt =====
-- The theorems on src/sign.rs at the signed message, and at messages that are refused.
use aws_nitro_enclaves_cose.Prelude.{String, true, false, [], ◌≡◌, ◌↔◌, some}
use aws_nitro_enclaves_cose.Outcome.{ok, err}
use aws_nitro_enclaves_cose.Error.{serialization_error}
use aws_nitro_enclaves_cose.Sign.Message.{from_bytes, from_bytes_tagged}
use aws_nitro_enclaves_cose.Sign.Message.RoundTrip.{from_bytes-as_bytes}
use aws_nitro_enclaves_cose.Sign.Message.Encoding.{IsMessage, from_bytes_iff}
use aws_nitro_enclaves_cose.Sign.Message.Tags.{
  HasTag, from_bytes_tagged_iff, from_bytes_nested_tags,
}
use aws_nitro_enclaves_cose.Sign.Signing.{verify_signature, get_payload}
use aws_nitro_enclaves_cose.Sign.Signing.Verify.{IsAccepted, verify_signature_iff}
use aws_nitro_enclaves_cose.Sign.Signing.Rejected.{
  no_algorithm, verify_signature-new_with_protected_no_alg,
  verify_signature-new_with_protected_empty,
}
use aws_nitro_enclaves_cose.Sign.Signing.Travel.{get_payload-from_bytes-as_bytes-new}
use aws_nitro_enclaves_cose.Tests.Format.{format, format-CborLaws}
use aws_nitro_enclaves_cose.Tests.Keys.{p256_key, p256_key-IsSound, sum_hash}
use aws_nitro_enclaves_cose.Tests.Signed.{
  payload, message, message_signed, header, header_read, tagged_bytes, untagged_bytes,
  as_bytes_tagged, as_bytes_untagged,
}
use aws_nitro_enclaves_cose.Tests.Variants.{
  unnamed_header, unnamed_message, unnamed_signed, unnamed_full, unnamed_alg, empty_message,
  empty_signed, twice_tagged, write_twice_tagged,
}

get_payload-from_bytes-as_bytes-new_example :
    (from_bytes format tagged_bytes ≡ ok message)
    × ((get_payload format sum_hash message (some p256_key.public_key) 7).0 ≡ ok payload)
get_payload-from_bytes-as_bytes-new_example =
    get_payload-from_bytes-as_bytes-new format format-CborLaws sum_hash p256_key p256_key-IsSound
      payload [] 0 7 message true tagged_bytes tt message_signed as_bytes_tagged

verify_signature_iff_example :
    ((verify_signature format sum_hash message p256_key.public_key 7).0 ≡ ok true)
    ↔ IsAccepted format sum_hash message p256_key.public_key 7
verify_signature_iff_example = verify_signature_iff format sum_hash message p256_key.public_key 7

verify_signature-new_with_protected_no_alg_example :
    verify_signature format sum_hash unnamed_message p256_key.public_key 9 ≡ (err no_algorithm, 9)
verify_signature-new_with_protected_no_alg_example =
    verify_signature-new_with_protected_no_alg format format-CborLaws sum_hash p256_key
      p256_key-IsSound payload unnamed_header [] 0 9 unnamed_message (tt, tt) unnamed_full
      unnamed_alg unnamed_signed

verify_signature-new_with_protected_empty_example :
    (empty_message.protected ≡ [])
    × ((x : String) × (verify_signature format sum_hash empty_message p256_key.public_key 9
          ≡ (err (serialization_error x), 9)))
verify_signature-new_with_protected_empty_example =
    verify_signature-new_with_protected_empty format format-CborLaws sum_hash p256_key
      p256_key-IsSound payload [] 0 9 empty_message empty_signed

from_bytes-as_bytes_example : from_bytes format untagged_bytes ≡ ok message
from_bytes-as_bytes_example =
    from_bytes-as_bytes format format-CborLaws message header false untagged_bytes tt header_read
      as_bytes_untagged

from_bytes_iff_example :
    (from_bytes format untagged_bytes ≡ ok message) ↔ IsMessage format untagged_bytes message
from_bytes_iff_example = from_bytes_iff format format-CborLaws untagged_bytes message

from_bytes_tagged_iff_example :
    (from_bytes_tagged format tagged_bytes ≡ ok message)
    ↔ ((from_bytes format tagged_bytes ≡ ok message) × HasTag format tagged_bytes (some 18))
from_bytes_tagged_iff_example = from_bytes_tagged_iff format tagged_bytes message

from_bytes_nested_tags_example :
    (from_bytes format twice_tagged ≡ ok message)
    × (from_bytes_tagged format twice_tagged ≡ ok message)
from_bytes_nested_tags_example =
    from_bytes_nested_tags format format-CborLaws message header 16 twice_tagged tt header_read
      write_twice_tagged
