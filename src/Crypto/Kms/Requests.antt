-- ===== src/Crypto/Kms/Requests.antt =====
-- AWS KMS, as far as src/crypto/kms.rs calls it: a service with a state of its own.
use aws_nitro_enclaves_cose.Prelude.{Bytes, String, Option, Bool}
use aws_nitro_enclaves_cose.Call.{Call}

-- The values of `SigningAlgorithmSpec` that the crate uses.
pub data SigningAlgorithmSpec : Type 0 where
  ecdsa_sha_256 ecdsa_sha_384 ecdsa_sha_512 : SigningAlgorithmSpec

-- The requests that the crate sends, each run to its reply. The messages are digests.
pub record Service (X S : Type 0) : Type 0 where
  pub get_public_key : String → Call X S (Option Bytes)
  pub verify : String → Bytes → SigningAlgorithmSpec → Bytes → Call X S Bool
  pub sign : String → Bytes → SigningAlgorithmSpec → Call X S (Option Bytes)
  -- `SdkError::ServiceError(e)` with `e.err().is_kms_invalid_signature_exception()`
  pub is_invalid_signature : X → Bool
