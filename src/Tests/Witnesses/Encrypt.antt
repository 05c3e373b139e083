-- ===== src/Tests/Witnesses/Encrypt.antt =====
-- The theorems on src/encrypt.rs at the encrypted message, and at messages that are refused.
use aws_nitro_enclaves_cose.Prelude.{pos, [], ◌∷◌, ◌≡◌, ◌↔◌, some, true}
use aws_nitro_enclaves_cose.Prelude.Int.{low_byte}
use aws_nitro_enclaves_cose.Outcome.{ok}
use aws_nitro_enclaves_cose.Serde.{integer}
use aws_nitro_enclaves_cose.HeaderMap
use aws_nitro_enclaves_cose.Crypto.Algorithms.{
  CoseAlgorithm, aes_gcm_96_128_128, gcm, cose_alg, value,
}
use aws_nitro_enclaves_cose.Encrypt.Message.{from_bytes}
use aws_nitro_enclaves_cose.Encrypt.Message.Encoding.{IsMessage, from_bytes_encrypt0_iff}
use aws_nitro_enclaves_cose.Encrypt.Message.RoundTrip.{from_bytes-as_bytes_encrypt0}
use aws_nitro_enclaves_cose.Encrypt.Cipher.{protected_map, encryption_algorithm}
use aws_nitro_enclaves_cose.Encrypt.Decrypt.{decrypt}
use aws_nitro_enclaves_cose.Encrypt.Decrypt.Opened.{IsOpened, encryption_algorithm_iff, decrypt_iff}
use aws_nitro_enclaves_cose.Encrypt.Decrypt.Refused.{decrypt_protected}
use aws_nitro_enclaves_cose.Encrypt.Decrypt.Travel.{decrypt-from_bytes-as_bytes-new}
use aws_nitro_enclaves_cose.Tests.Value.{Value, int}
use aws_nitro_enclaves_cose.Tests.Format.{format, format-CborLaws}
use aws_nitro_enclaves_cose.Tests.Keys.{clear_encryption, clear_decryption, zeros, clear-IsInverse}
use aws_nitro_enclaves_cose.Tests.Encrypted.{
  payload, key, message, message_encrypted, tagged_bytes, as_bytes_tagged, header, header_read,
  long_protected, long_read,
}

decrypt-from_bytes-as_bytes-new_example :
    (from_bytes format tagged_bytes ≡ ok message)
    × ((a : CoseAlgorithm) × (cose_alg gcm key ≡ some a)
        × (decrypt format clear_decryption message key
            ≡ ok (protected_map format a, message.unprotected, payload)))
decrypt-from_bytes-as_bytes-new_example =
    decrypt-from_bytes-as_bytes-new format format-CborLaws zeros clear_encryption clear_decryption
      clear-IsInverse payload gcm key 0 message true tagged_bytes message_encrypted as_bytes_tagged

decrypt_iff_example :
    (decrypt format clear_decryption message key ≡ ok (header, message.unprotected, payload))
    ↔ IsOpened format clear_decryption message key header payload
decrypt_iff_example = decrypt_iff format clear_decryption message key header payload

encryption_algorithm_iff_example :
    (encryption_algorithm format ((int (pos 1), int (pos 257)) ∷ []) ≡ ok aes_gcm_96_128_128) ↔ (
      (v : Value) × (z : _) × (HeaderMap.get format
          (int (pos 1))
          ((int (pos 1), int (pos 257)) ∷ [])
        ≡ some v)
      × (format.view v ≡ integer z)
      × (low_byte z ≡ value aes_gcm_96_128_128))
encryption_algorithm_iff_example =
    encryption_algorithm_iff format ((int (pos 1), int (pos 257)) ∷ []) aes_gcm_96_128_128

decrypt_protected_example :
    decrypt format clear_decryption (record message { protected = long_protected }) key
    ≡ decrypt format clear_decryption message key
decrypt_protected_example =
    decrypt_protected format clear_decryption message key long_protected long_read

from_bytes-as_bytes_encrypt0_example : from_bytes format tagged_bytes ≡ ok message
from_bytes-as_bytes_encrypt0_example =
    from_bytes-as_bytes_encrypt0 format format-CborLaws message header true tagged_bytes (tt, tt)
      header_read as_bytes_tagged

from_bytes_encrypt0_iff_example :
    (from_bytes format tagged_bytes ≡ ok message) ↔ IsMessage format tagged_bytes message
from_bytes_encrypt0_iff_example = from_bytes_encrypt0_iff format tagged_bytes message
