-- ===== src/Tests/Witnesses/Results.antt =====
-- The theorems on what the functions of src/ give, and on what header maps and signatures are made of.
use mathlib.Core.List.{Memᴰ}
use mathlib.Core.List.Permᴰ.{swap}
use aws_nitro_enclaves_cose.Prelude.{
  ℕ, ◌+◌, ◌*◌, Bytes, true, false, pos, some, [], ◌∷◌, ◌≡◌, ◌↔◌, refl, length,
}
use aws_nitro_enclaves_cose.Outcome.{ok}
use aws_nitro_enclaves_cose.Outcome.Ensures.{Ensures, returns}
use aws_nitro_enclaves_cose.HeaderMap
use aws_nitro_enclaves_cose.HeaderMap.Contents.{get-from_bytes_iff, from_bytes-Perm}
use aws_nitro_enclaves_cose.Crypto.Algorithms.{CoseAlgorithm, es256, key_length, gcm, value}
use aws_nitro_enclaves_cose.Crypto.Openssl.Library.{x9_62_prime256v1}
use aws_nitro_enclaves_cose.Crypto.OpensslPkey
use aws_nitro_enclaves_cose.Crypto.OpensslPkey.Accepts.{IsRaw, verify-eq-true_iff_openssl}
use aws_nitro_enclaves_cose.Crypto.Kms
use aws_nitro_enclaves_cose.Crypto.Kms.Accepts.{IsEncoded, Says, verify-eq-ok_iff_kms}
use aws_nitro_enclaves_cose.Crypto.Tpm as TpmKeys
use aws_nitro_enclaves_cose.Crypto.Tpm.Library.{TpmSignature}
use aws_nitro_enclaves_cose.Crypto.Tpm.Accepts as TpmAccepts
use aws_nitro_enclaves_cose.Crypto.Tpm.Accepts.{IsComposed, verify-eq-ok_iff_tpm}
use aws_nitro_enclaves_cose.Sign.Signing
use aws_nitro_enclaves_cose.Sign.Signing.Live.{IsNotSigned, new-Ensures_sign1}
use aws_nitro_enclaves_cose.Encrypt.Message.{CoseEncrypt0}
use aws_nitro_enclaves_cose.Encrypt.Cipher
use aws_nitro_enclaves_cose.Encrypt.Cipher.{protected_map, initialization_vector}
use aws_nitro_enclaves_cose.Encrypt.Decrypt.{decrypt}
use aws_nitro_enclaves_cose.Encrypt.Decrypt.Sizes.{new-sizes}
use aws_nitro_enclaves_cose.Encrypt.Cipher.Outcomes.{IsNotEncrypted}
use aws_nitro_enclaves_cose.Encrypt.Decrypt.Live.{new-Ensures_encrypt0}
use aws_nitro_enclaves_cose.Tests.Value.{Value, int}
use aws_nitro_enclaves_cose.Tests.Format.{format, format-CborLaws, format-IsTotal}
use aws_nitro_enclaves_cose.Tests.Keys.{
  curves, curves-EllipticCurvesLaws, p256-IsUsable, sum_hash, clear_encryption, clear_decryption,
  clear-IsInverse, zeros,
}
use aws_nitro_enclaves_cose.Encrypt.Session.Safety.{IsSentIn, decrypt-IsSentIn}
use aws_nitro_enclaves_cose.Tests.Sealed.{
  strict_decryption, history, strict-IsIdealCipher, strict_decrypted,
}
use aws_nitro_enclaves_cose.Tests.Live.{
  plain_key, plain_key-IsSound, clear-DoNotPanic, clear-KeepsLength, two_entries, entries_turned,
  two_bytes, turned_bytes, two_sliced, turned_sliced, two_read,
}
use aws_nitro_enclaves_cose.Tests.Services.{service, kms_key, tpm, tpm_key}
use aws_nitro_enclaves_cose.Tests.Signed.{signature}
use aws_nitro_enclaves_cose.Tests.Encrypted.{payload, key, message, message_encrypted, header}

new-Ensures_sign1_example :
    Ensures
      (λ m.
        (k' : ℕ)
        → (Signing.get_payload format sum_hash m (some plain_key.public_key) k').0 ≡ ok payload)
      (IsNotSigned format sum_hash plain_key plain_key-IsSound payload 0)
      (Signing.new format sum_hash plain_key payload [] 0).0
new-Ensures_sign1_example =
    new-Ensures_sign1 format sum_hash plain_key plain_key-IsSound format-IsTotal (λ a b. returns tt)
      (λ d k. returns tt) format-CborLaws payload [] 0

new-Ensures_encrypt0_example :
    Ensures
      (λ (m : CoseEncrypt0 Value).
        (a : CoseAlgorithm) × (length key ≡ 8 + 8 * value a)
        × (decrypt format clear_decryption m key
            ≡ ok (protected_map format a, m.unprotected, payload)))
      (IsNotEncrypted format zeros clear_encryption payload key 0)
      (Cipher.new format zeros clear_encryption payload gcm key 0).0
new-Ensures_encrypt0_example =
    new-Ensures_encrypt0 format format-CborLaws format-IsTotal zeros clear_encryption
      clear-DoNotPanic clear_decryption clear-IsInverse payload key 0

new-sizes_example :
    (length message.ciphertext ≡ length payload + 16)
    × ((iv : Bytes) × (initialization_vector format message.unprotected ≡ ok iv) × (length iv ≡ 12))
new-sizes_example =
    new-sizes format format-CborLaws zeros clear_encryption clear-KeepsLength payload gcm key 0
      message message_encrypted

get-from_bytes_iff_example :
    (HeaderMap.get format (int (pos 3)) two_entries ≡ some (int (pos 2)))
    ↔ Memᴰ (int (pos 3), int (pos 2)) two_entries
get-from_bytes_iff_example =
    get-from_bytes_iff format format-CborLaws two_bytes two_entries two_entries (int (pos 3))
      (int (pos 2)) two_sliced two_read

from_bytes-Perm_example : HeaderMap.from_bytes format turned_bytes ≡ ok two_entries
from_bytes-Perm_example =
    from_bytes-Perm format format-CborLaws two_bytes turned_bytes two_entries entries_turned
      two_entries two_sliced turned_sliced (swap refl refl) two_read

verify-eq-true_iff_openssl_example :
    (OpensslPkey.verify curves x9_62_prime256v1 (21 ∷ []) signature ≡ ok true) ↔ (
      (g : ℕ × ℕ) × IsRaw curves (key_length es256) signature g
      × (curves.ecdsa_verify g (21 ∷ []) x9_62_prime256v1 ≡ ok true))
verify-eq-true_iff_openssl_example =
    verify-eq-true_iff_openssl curves curves-EllipticCurvesLaws x9_62_prime256v1 p256-IsUsable
      (21 ∷ []) signature

verify-eq-ok_iff_kms_example :
    ((Kms.verify {W = ℕ} curves service kms_key (21 ∷ []) signature 0).0 ≡ ok false) ↔ (
      (der : Bytes) × IsEncoded curves service curves-EllipticCurvesLaws kms_key signature der
      × Says curves service false
          (service.verify "key"
            (21 ∷ [])
            (Kms.get_sig_alg_spec {W = ℕ} curves service kms_key)
            der
            0).0)
verify-eq-ok_iff_kms_example =
    verify-eq-ok_iff_kms curves service curves-EllipticCurvesLaws kms_key (21 ∷ []) signature 0
      false refl

verify-eq-ok_iff_tpm_example : ((TpmKeys.verify tpm tpm_key (21 ∷ []) signature 0).0 ≡ ok true) ↔ (
    (g : TpmSignature) × (digest : Bytes) × IsComposed tpm tpm_key signature g
    × (tpm.digest (21 ∷ []) ≡ ok digest)
    × TpmAccepts.Says tpm true (tpm.verify_signature 1 digest g 0).0)
verify-eq-ok_iff_tpm_example = verify-eq-ok_iff_tpm tpm tpm_key (21 ∷ []) signature 0 true

decrypt-IsSentIn_example :
    (found_iv : Bytes) × (initialization_vector format message.unprotected ≡ ok found_iv)
    × IsSentIn format format-CborLaws zeros clear_encryption key 0
        (record { payload = payload; message = message } ∷ [])
        header
        found_iv
        payload
decrypt-IsSentIn_example =
    decrypt-IsSentIn format format-CborLaws zeros clear_encryption key 0 strict_decryption message
      header message.unprotected payload history strict-IsIdealCipher strict_decrypted
