-- ===== src/Crypto/Traits/Contracts.antt =====
-- What the messages of the crate rely on of a key and of a cipher.
use aws_nitro_enclaves_cose.Prelude.{Bytes, some, true, ◌≡◌, length}
use aws_nitro_enclaves_cose.Outcome.{ok}
use aws_nitro_enclaves_cose.Crypto.Algorithms.{
  SignatureAlgorithm, MessageDigest, EncryptionAlgorithm,
}
use aws_nitro_enclaves_cose.Crypto.Traits.{
  Encryption, Decryption, SigningPublicKey, SigningPrivateKey,
}

-- What a key of the crate promises: fixed parameters that no state is needed for, and signatures
-- that it accepts itself, at any later time.
pub record IsSound {X K : Type 0} (key : SigningPrivateKey X K) : Type 0 where
  pub algorithm : SignatureAlgorithm
  pub digest : MessageDigest
  pub get_parameters-eq : (k : K) → key.get_parameters k ≡ (ok (algorithm, digest), k)
  pub verify-sign :
      (d s : Bytes) (k k' : K) → (key.sign d k).0 ≡ ok s → (key.verify d s k').0 ≡ ok true

-- Another party's key, which accepts what the signer signed and tells the signer's parameters.
pub record IsReader {X K K' : Type 0} (signer : SigningPrivateKey X K) (S : IsSound signer)
    (reader : SigningPublicKey X K') : Type 0 where
  pub reader_parameters : (k : K') → reader.get_parameters k ≡ (ok (S.algorithm, S.digest), k)
  pub reader_verify-sign :
      (d s : Bytes) (k : K) (k' : K')
      → (signer.sign d k).0 ≡ ok s
      → (reader.verify d s k').0 ≡ ok true

-- A sound key reads itself.
pub public_key-IsReader :
    {X K : Type 0} (key : SigningPrivateKey X K) (S : IsSound key) → IsReader key S key.public_key
public_key-IsReader key S = record {
  reader_parameters = S.get_parameters-eq;
  reader_verify-sign = S.verify-sign;
}

-- The documented contract of an AEAD cipher: the tag fills its buffer, and decryption with the same
-- inputs inverts encryption.
pub record IsInverse {X : Type 0} (encryption : Encryption X) (decryption : Decryption X)
    : Type 0 where
  pub length-tag :
      (a : EncryptionAlgorithm) (key iv aad text buffer ciphertext tag : Bytes)
      → encryption.encrypt_aead a key (some iv) aad text buffer ≡ ok (ciphertext, tag)
      → length tag ≡ length buffer
  pub decrypt-encrypt :
      (a : EncryptionAlgorithm) (key iv aad text buffer ciphertext tag : Bytes)
      → encryption.encrypt_aead a key (some iv) aad text buffer ≡ ok (ciphertext, tag)
      → decryption.decrypt_aead a key (some iv) aad ciphertext tag ≡ ok text
