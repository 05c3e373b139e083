-- ===== src/Tests/Witnesses/Endings.antt =====
-- The theorems on how the functions of src/ may end, at messages that are whole or cut off.
use aws_nitro_enclaves_cose.Prelude.{◌<◌, false, some, [], ◌∷◌, ◌≡◌, ◌↔◌, ◌⊎◌}
use aws_nitro_enclaves_cose.Outcome.{panic}
use aws_nitro_enclaves_cose.Outcome.Ensures.{Ensures, returns}
use aws_nitro_enclaves_cose.Error.Reading.{IsReadError}
use aws_nitro_enclaves_cose.Crypto.Algorithms.{es256, key_length}
use aws_nitro_enclaves_cose.Crypto.Openssl.Library.{x9_62_prime256v1}
use aws_nitro_enclaves_cose.Sign.Message.{CoseSign1, from_bytes}
use aws_nitro_enclaves_cose.Sign.Message.Encoding.{IsMessage}
use aws_nitro_enclaves_cose.Sign.Message.Total.{from_bytes-Ensures}
use aws_nitro_enclaves_cose.Sign.Signing.{verify_signature, get_payload}
use aws_nitro_enclaves_cose.Sign.Signing.Verify.{IsReached}
use aws_nitro_enclaves_cose.Sign.Signing.Outcomes.{IsRefusal, verify_signature_cases}
use aws_nitro_enclaves_cose.Sign.Signing.Panics.{get_payload_panic_iff}
use aws_nitro_enclaves_cose.Encrypt.Decrypt.{decrypt}
use aws_nitro_enclaves_cose.Encrypt.Decrypt.Outcomes.{
  IsRefused as IsDecryptRefused, decrypt-IsRefused, invalid_iv,
}
use aws_nitro_enclaves_cose.Tests.Encrypted.{without_iv, without_iv_refused}
use aws_nitro_enclaves_cose.Encrypt.Decrypt.Panics.{IsShort, decrypt_panic_iff}
use aws_nitro_enclaves_cose.Tests.Value.{Value}
use aws_nitro_enclaves_cose.Tests.Format.{format, format-CborLaws, format-IsTotal}
use aws_nitro_enclaves_cose.Tests.Keys.{
  curves, curves-EllipticCurvesLaws, p256-IsUsable, p256_key, sum_hash, clear_decryption,
}
use aws_nitro_enclaves_cose.Tests.Live.{curves-IsTotal, plain_key}
use aws_nitro_enclaves_cose.Tests.Signed.{message, tagged_bytes}
use aws_nitro_enclaves_cose.Tests.Encrypted.{short_message, key}

from_bytes-Ensures_example :
    Ensures (λ m. IsMessage format tagged_bytes m) (IsReadError 18) (from_bytes format tagged_bytes)
from_bytes-Ensures_example = from_bytes-Ensures format format-IsTotal format-CborLaws tagged_bytes

verify_signature_cases_example :
    ((r : IsReached format sum_hash message plain_key.public_key 7) × (verify_signature format
          sum_hash message plain_key.public_key 7
        ≡ plain_key.verify r.hashed message.signature r.after))
    ⊎ Ensures
        (λ b. b ≡ false)
        (IsRefusal plain_key.public_key 7)
        (verify_signature format sum_hash message plain_key.public_key 7).0
verify_signature_cases_example =
    verify_signature_cases format format-IsTotal sum_hash (λ a b. returns tt) plain_key.public_key
      (λ k. returns tt) message 7

-- The message with three bytes of its signature.
abbrev cut_message : CoseSign1 Value
cut_message = record message { signature = 0 ∷ 0 ∷ 0 ∷ [] }

get_payload_panic_iff_example :
    ((get_payload format sum_hash cut_message (some p256_key.public_key) 7).0 ≡ panic)
    ↔ (IsReached format sum_hash cut_message p256_key.public_key 7 × (3 < key_length es256))
get_payload_panic_iff_example =
    get_payload_panic_iff format format-IsTotal sum_hash (λ a b. returns tt) curves
      curves-EllipticCurvesLaws curves-IsTotal x9_62_prime256v1 p256-IsUsable cut_message 7

decrypt_panic_iff_example :
    (decrypt format clear_decryption short_message key ≡ panic) ↔ IsShort format short_message
decrypt_panic_iff_example =
    decrypt_panic_iff format format-IsTotal clear_decryption (λ a k iv aad text tag. returns tt)
      short_message key

decrypt-IsRefused_example : IsDecryptRefused format clear_decryption without_iv key invalid_iv
decrypt-IsRefused_example =
    decrypt-IsRefused format clear_decryption without_iv key invalid_iv without_iv_refused
