-- ===== src/Encrypt/Decrypt.antt =====
-- `CoseEncrypt0::decrypt` of src/encrypt.rs.
pub mod RoundTrip
pub mod Opened
pub mod Refused
pub mod Panics
pub mod Outcomes
pub mod Sizes
pub mod Live
pub mod Travel
use aws_nitro_enclaves_cose.Prelude.{Bytes, some, length}
use aws_nitro_enclaves_cose.Outcome.{Outcome, ok, map_err, ◌>>=◌}
use aws_nitro_enclaves_cose.Error.{CoseError, serialization_error, encryption_error, cose}
use aws_nitro_enclaves_cose.Serde.{Cbor}
use aws_nitro_enclaves_cose.HeaderMap
use aws_nitro_enclaves_cose.HeaderMap.{HeaderMap}
use aws_nitro_enclaves_cose.Crypto.Algorithms.{tag_size, to_encryption_algorithm}
use aws_nitro_enclaves_cose.Crypto.Traits.{Decryption}
use aws_nitro_enclaves_cose.Crypto.Signature.{split_at}
use aws_nitro_enclaves_cose.Encrypt.Message.{CoseEncrypt0}
use aws_nitro_enclaves_cose.Encrypt.Cipher.{
  checked_sub, enc_structure_bytes, encryption_algorithm, initialization_vector,
}

module _ {X V : Type 0} (c : Cbor X V) where
  -- The header maps and the payload.
  unfoldable pub decrypt :
      Decryption X
      → CoseEncrypt0 V
      → Bytes
      → Outcome (CoseError X) (HeaderMap V × HeaderMap V × Bytes)
  decrypt decryption m key = do
    protected ← map_err serialization_error (HeaderMap.from_bytes c m.protected)
    alg ← encryption_algorithm c protected
    protected_bytes ← map_err serialization_error (HeaderMap.map_to_empty_or_serialized c protected)
    iv ← initialization_vector c m.unprotected
    mid ← checked_sub (length m.ciphertext) (tag_size alg)
    (ciphertext, tag) ← split_at mid m.ciphertext
    aad ← enc_structure_bytes c protected_bytes
    payload ←
        map_err (λ e. encryption_error (cose e))
          (decryption.decrypt_aead (to_encryption_algorithm alg) key (some iv) aad ciphertext tag)
    ok (protected, m.unprotected, payload)
