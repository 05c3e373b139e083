-- ===== src/Crypto/Openssl/Provider.antt =====
-- `struct Openssl` of src/crypto/openssl.rs: each trait's method is a call of the crate, with the
-- crate's error wrapped.
use aws_nitro_enclaves_cose.Outcome.{map_err}
use aws_nitro_enclaves_cose.Call.{call_err}
use aws_nitro_enclaves_cose.Error.{entropy_error, encryption_error, hashing_error, foreign}
use aws_nitro_enclaves_cose.Crypto.Algorithms.{
  MessageDigest, sha256, sha384, sha512, EncryptionAlgorithm, aes128_gcm, aes192_gcm, aes256_gcm,
}
use aws_nitro_enclaves_cose.Crypto.Traits.{Entropy, Encryption, Decryption, Hash}
use aws_nitro_enclaves_cose.Crypto.Openssl.Library.{Symmetric}

module _ {X W Cipher Digest : Type 0} (lib : Symmetric X W Cipher Digest) where
  -- The match in `encrypt_aead`
  unfoldable pub cipher_of : EncryptionAlgorithm → Cipher
  cipher_of aes128_gcm = lib.aes_128_gcm
  cipher_of aes192_gcm = lib.aes_192_gcm
  cipher_of aes256_gcm = lib.aes_256_gcm

  -- `impl From<EncryptionAlgorithm> for Cipher`, by which `decrypt_aead` converts
  unfoldable pub to_cipher : EncryptionAlgorithm → Cipher
  to_cipher aes128_gcm = lib.aes_128_gcm
  to_cipher aes192_gcm = lib.aes_192_gcm
  to_cipher aes256_gcm = lib.aes_256_gcm

  -- `impl From<MessageDigest> for openssl::hash::MessageDigest`
  unfoldable pub to_digest : MessageDigest → Digest
  to_digest sha256 = lib.sha256
  to_digest sha384 = lib.sha384
  to_digest sha512 = lib.sha512

  abbrev pub entropy : Entropy X W
  entropy = record {
    rand_bytes = λ buff. call_err (λ e. entropy_error (foreign e)) (lib.rand_bytes buff);
  }

  abbrev pub encryption : Encryption X
  encryption = record {
    encrypt_aead = λ algo key iv aad text tag.
        map_err (λ e. encryption_error (foreign e))
          (lib.encrypt_aead (cipher_of algo) key iv aad text tag);
  }

  abbrev pub decryption : Decryption X
  decryption = record {
    decrypt_aead = λ algo key iv aad text tag.
        map_err (λ e. encryption_error (foreign e))
          (lib.decrypt_aead (to_cipher algo) key iv aad text tag);
  }

  abbrev pub hash : Hash X
  hash = record {
    hash =
        λ digest text. map_err (λ e. hashing_error (foreign e)) (lib.hash (to_digest digest) text);
  }
