-- ===== src/Crypto/Tpm/Library.antt =====
-- The tss_esapi crate, as far as src/crypto/tpm.rs calls it. Its constants and what a TPM answers
-- are parameters.
use aws_nitro_enclaves_cose.Prelude.{ℕ, Bytes, Bool}
use aws_nitro_enclaves_cose.Outcome.{Outcome}
use aws_nitro_enclaves_cose.Call.{Call}

-- The fields of `TPMT_PUBLIC` that are read: its type, and of its `eccDetail` the curve, the scheme
-- and the hash of the scheme's `ecdsa` details.
pub record TpmtPublic : Type 0 where
  pub type_ : ℕ
  pub curve_id : ℕ
  pub scheme : ℕ
  pub hash_alg : ℕ

-- The names of `tpm_constants::tss`, without their prefix TPM2.
pub record Constants : Type 0 where
  pub alg_ecdsa : ℕ
  pub alg_ecc : ℕ
  pub ecc_nist_p256 : ℕ
  pub ecc_nist_p384 : ℕ
  pub ecc_nist_p521 : ℕ
  pub alg_sha256 : ℕ
  pub alg_sha384 : ℕ
  pub alg_sha512 : ℕ

-- `Signature`: an `EcDsa` with its two components, or another variant.
pub data TpmSignature : Type 0 where
  ec_dsa : Bytes → Bytes → TpmSignature
  other_signature : TpmSignature

-- `C` is the state of a `Context`, `HashAlg` its `HashingAlgorithm`.
pub record Tpm (X C Handle HashAlg : Type 0) : Type 0 where
  pub constants : Constants
  pub hashing_algorithm : ℕ → Outcome X HashAlg
  pub read_public : Handle → Call X C TpmtPublic
  -- `EccParameter::try_from`, `EccSignature::create` and `Digest::try_from`
  pub ecc_parameter : Bytes → Outcome X Bytes
  pub create : HashAlg → Bytes → Bytes → Outcome X TpmSignature
  pub digest : Bytes → Outcome X Bytes
  pub verify_signature : Handle → Bytes → TpmSignature → Call X C (Unit {0})
  -- `Tss2Error(FormatOne(FormatOneResponseCode(TSS2_RC_SIGNATURE)))`
  pub is_signature_failure : X → Bool
  -- The conversions of the null scheme and of the null ticket
  pub null_scheme : Outcome X (Unit {0})
  pub null_validation : Outcome X (Unit {0})
  pub sign : Handle → Bytes → Call X C TpmSignature
