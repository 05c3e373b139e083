-- ===== src/Crypto/Traits.antt =====
-- The traits of src/crypto/mod.rs. A key's methods run on the state `K` that it keeps or reaches
-- (`&self` may hide a TPM context or a service), a provider's source of entropy on the state `W`.
-- The calls of an `Encryption`, `Decryption` or `Hash` have no state.
pub mod Contracts
pub mod Trace
use aws_nitro_enclaves_cose.Prelude.{Bytes, Option, Bool}
use aws_nitro_enclaves_cose.Outcome.{Outcome}
use aws_nitro_enclaves_cose.Call.{Call}
use aws_nitro_enclaves_cose.Error.{CoseError}
use aws_nitro_enclaves_cose.Crypto.Algorithms.{
  MessageDigest, SignatureAlgorithm, EncryptionAlgorithm,
}

-- `rand_bytes` fills the buffer that it is given: it takes the old and returns the new contents.
pub record Entropy (X W : Type 0) : Type 0 where
  pub rand_bytes : Bytes → Call (CoseError X) W Bytes

-- `encrypt_aead algo key iv aad text tag` returns the ciphertext and the new contents of `tag`.
pub record Encryption (X : Type 0) : Type 0 where
  pub encrypt_aead :
      EncryptionAlgorithm
      → Bytes
      → Option Bytes
      → Bytes
      → Bytes
      → Bytes
      → Outcome (CoseError X) (Bytes × Bytes)

pub record Decryption (X : Type 0) : Type 0 where
  pub decrypt_aead :
      EncryptionAlgorithm
      → Bytes
      → Option Bytes
      → Bytes
      → Bytes
      → Bytes
      → Outcome (CoseError X) Bytes

pub record Hash (X : Type 0) : Type 0 where
  pub hash : MessageDigest → Bytes → Outcome (CoseError X) Bytes

pub record SigningPublicKey (X K : Type 0) : Type 0 where
  pub get_parameters : Call (CoseError X) K (SignatureAlgorithm × MessageDigest)
  pub verify : Bytes → Bytes → Call (CoseError X) K Bool

pub record SigningPrivateKey (X K : Type 0) : Type 0 where
  pub public_key : SigningPublicKey X K
  pub open public_key use *
  pub sign : Bytes → Call (CoseError X) K Bytes
