-- ===== src/Crypto/Openssl/Sound.antt =====
-- `struct Openssl` of src/crypto/openssl.rs keeps the contract of its library's AEAD ciphers.
use aws_nitro_enclaves_cose.Prelude.{Bytes, some, ◌≡◌, refl, length}
use aws_nitro_enclaves_cose.Outcome.{ok, map_err-eq-ok}
use aws_nitro_enclaves_cose.Crypto.Algorithms.{
  EncryptionAlgorithm, aes128_gcm, aes192_gcm, aes256_gcm,
}
use aws_nitro_enclaves_cose.Crypto.Traits.Contracts.{IsInverse}
use aws_nitro_enclaves_cose.Crypto.Openssl.Library.{Symmetric}
use aws_nitro_enclaves_cose.Crypto.Openssl.Provider.{cipher_of, to_cipher, encryption, decryption}

module _ {X W Cipher Digest : Type 0} (lib : Symmetric X W Cipher Digest) where
  -- The documented contract of `openssl::symm`: the tag fills its buffer, and with the same cipher
  -- and inputs decryption inverts encryption.
  pub record IsAead : Type 0 where
    pub length-tag :
        (cipher : Cipher) (key iv aad text buffer ciphertext tag : Bytes)
        → lib.encrypt_aead cipher key (some iv) aad text buffer ≡ ok (ciphertext, tag)
        → length tag ≡ length buffer
    pub decrypt-encrypt :
        (cipher : Cipher) (key iv aad text buffer ciphertext tag : Bytes)
        → lib.encrypt_aead cipher key (some iv) aad text buffer ≡ ok (ciphertext, tag)
        → lib.decrypt_aead cipher key (some iv) aad ciphertext tag ≡ ok text

  cipher_of-eq-to_cipher : (a : EncryptionAlgorithm) → cipher_of lib a ≡ to_cipher lib a
  unfolding cipher_of to_cipher
  cipher_of-eq-to_cipher aes128_gcm = refl
  cipher_of-eq-to_cipher aes192_gcm = refl
  cipher_of-eq-to_cipher aes256_gcm = refl

  -- Over a library whose decryption inverts its encryption, `Openssl` decrypts what it encrypted, for
  -- each algorithm: both directions choose the same cipher.
  pub openssl-IsInverse : IsAead → IsInverse (encryption lib) (decryption lib)
  openssl-IsInverse L = record {
    length-tag = λ a key iv aad text buffer ciphertext tag e.
        L.length-tag (cipher_of lib a) key iv aad text buffer ciphertext tag (map_err-eq-ok _ _ e);
    decrypt-encrypt = λ a key iv aad text buffer ciphertext tag e. rw (
      ← cipher_of-eq-to_cipher a,
      L.decrypt-encrypt (cipher_of lib a) key iv aad text buffer ciphertext tag
          (map_err-eq-ok _ _ e),
    );
  }
