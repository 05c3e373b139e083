-- ===== src/Crypto/Tpm.antt =====
-- src/crypto/tpm.rs: a key in a TPM as a signing key. The state of a call is the `Context` in the
-- key's RefCell; no method calls another while it borrows it.
pub mod Library
pub mod Sound
pub mod Supported
pub mod Panics
pub mod Accepts
use Prim.Native.String.{◌++◌ as ◌<>◌}
use aws_nitro_enclaves_cose.Prelude.{ℕ, Bytes, String, Bool, true, false, ◌==◌, ◌||◌, if◌then◌else◌}
use aws_nitro_enclaves_cose.Outcome.{Outcome, ok, err, panic, map_err}
use aws_nitro_enclaves_cose.Outcome
use aws_nitro_enclaves_cose.Call.{Call, lift, call_err, ◌>>=◌}
use aws_nitro_enclaves_cose.Error.{CoseError, unsupported_error, tpm_error}
use aws_nitro_enclaves_cose.Error.Decimal.{decimal}
use aws_nitro_enclaves_cose.Crypto.Algorithms.{
  SignatureAlgorithm, MessageDigest, es256, es384, es512, sha256, sha384, sha512,
}
use aws_nitro_enclaves_cose.Crypto.Traits.{SigningPublicKey, SigningPrivateKey}
use aws_nitro_enclaves_cose.Crypto.Signature.{split_at, merge_ec_signature}
use aws_nitro_enclaves_cose.Crypto.Tpm.Library.{
  TpmtPublic, Constants, TpmSignature, ec_dsa, other_signature, Tpm,
}

-- `struct TpmKey`, less its context.
pub record TpmKey (Handle HashAlg : Type 0) : Type 0 where
  pub key_handle : Handle
  pub parameters : SignatureAlgorithm × MessageDigest
  pub hash_alg : HashAlg
  pub key_length : ℕ

module _ {X : Type 0} (k : Constants) where
  abbrev unsupported : String → ℕ → String → CoseError X
  unsupported before n after = unsupported_error (before <> (decimal n <> after))

  unfoldable pub check_type : ℕ → Outcome (CoseError X) (Unit {0})
  check_type type_ =
      if type_ == k.alg_ecdsa
      then ok tt
      else if type_ == k.alg_ecc
      then ok tt
      else err (
          unsupported "Key algorithm " type_ " is not supported, only ECDSA is currently supported")

  unfoldable pub curve_parameters : ℕ → Outcome (CoseError X) (SignatureAlgorithm × ℕ)
  curve_parameters curve_id =
      if curve_id == k.ecc_nist_p256
      then ok (es256, 32)
      else if curve_id == k.ecc_nist_p384
      then ok (es384, 48)
      else if curve_id == k.ecc_nist_p521
      then ok (es512, 66)
      else err (unsupported "Key curve " curve_id " is not supported")

  unfoldable pub check_scheme : ℕ → Outcome (CoseError X) (Unit {0})
  check_scheme scheme =
      if scheme == k.alg_ecdsa
      then ok tt
      else err (unsupported "Key scheme " scheme " is not supported")

  unfoldable pub digest_of : ℕ → Outcome (CoseError X) MessageDigest
  digest_of hash_alg =
      if hash_alg == k.alg_sha256
      then ok sha256
      else if hash_alg == k.alg_sha384
      then ok sha384
      else if hash_alg == k.alg_sha512
      then ok sha512
      else err (unsupported "Key hash alg " hash_alg " is not supported")

module _ {X C Handle HashAlg : Type 0} (tpm : Tpm X C Handle HashAlg) where
  -- `TpmKey::public_to_parameters`
  unfoldable pub public_to_parameters :
      TpmtPublic → Outcome (CoseError X) ((SignatureAlgorithm × MessageDigest) × HashAlg × ℕ)
  public_to_parameters public = Outcome.◌>>=◌ (check_type tpm.constants public.type_) λ _.
      Outcome.◌>>=◌ (curve_parameters tpm.constants public.curve_id) λ (param_sig_alg, key_length).
        Outcome.◌>>=◌ (check_scheme tpm.constants public.scheme) λ _.
          Outcome.◌>>=◌ (digest_of tpm.constants public.hash_alg) λ param_hash_alg.
            Outcome.◌>>=◌
              (map_err (λ e. unsupported_error "Unsupported hashing algorithm")
                (tpm.hashing_algorithm public.hash_alg))
              λ hash_alg. ok ((param_sig_alg, param_hash_alg), hash_alg, key_length)

  unfoldable pub new : Handle → Call (CoseError X) C (TpmKey Handle HashAlg)
  new key_handle = do
    public ← call_err tpm_error (tpm.read_public key_handle)
    (parameters, hash_alg, key_length) ← lift (public_to_parameters public)
    lift (
        ok record {
          key_handle = key_handle;
          parameters = parameters;
          hash_alg = hash_alg;
          key_length = key_length;
        })

  -- The signature as the TPM takes it.
  unfoldable pub to_tpm_signature :
      TpmKey Handle HashAlg → Bytes → Outcome (CoseError X) TpmSignature
  to_tpm_signature key signature =
      Outcome.◌>>=◌ (split_at key.key_length signature) λ (bytes_r, bytes_s).
        Outcome.◌>>=◌
          (map_err (λ e. unsupported_error "Unable to convert R signature component")
            (tpm.ecc_parameter bytes_r))
          λ r.
            Outcome.◌>>=◌
              (map_err (λ e. unsupported_error "Unable to convert S signature component")
                (tpm.ecc_parameter bytes_s))
              λ s.
                map_err (λ e. unsupported_error "Unable to create ECC signature")
                  (tpm.create key.hash_alg r s)

  -- The match on the TPM's answer.
  unfoldable pub read_answer : Outcome X (Unit {0}) → Outcome (CoseError X) Bool
  read_answer (ok _) = ok true
  read_answer (err e) = if tpm.is_signature_failure e then ok false else err (tpm_error e)
  read_answer panic = panic

  unfoldable pub verify : TpmKey Handle HashAlg → Bytes → Bytes → Call (CoseError X) C Bool
  verify key text signature = do
    sig ← lift (to_tpm_signature key signature)
    digest ←
        lift (map_err (λ e. unsupported_error "Invalid digest passed to verify") (tpm.digest text))
    λ context.
        let answer = tpm.verify_signature key.key_handle digest sig context in
        (read_answer answer.0, answer.1)

  -- `expect`
  abbrev expect : {A : Type 0} → Outcome X A → Outcome (CoseError X) A
  expect (ok a) = ok a
  expect (err e) = panic
  expect panic = panic

  unfoldable pub raw_signature : TpmKey Handle HashAlg → TpmSignature → Outcome (CoseError X) Bytes
  raw_signature key (ec_dsa r s) = merge_ec_signature r s key.key_length
  raw_signature key other_signature = err (unsupported_error "Unsupported signature data returned")

  unfoldable pub sign : TpmKey Handle HashAlg → Bytes → Call (CoseError X) C Bytes
  sign key text = do
    digest ← lift (map_err (λ e. unsupported_error "Tried to sign invalid data") (tpm.digest text))
    scheme ←
        lift (map_err (λ e. unsupported_error "Unable to convert signature scheme") tpm.null_scheme)
    validation ← lift (expect tpm.null_validation)
    signature ← call_err tpm_error (tpm.sign key.key_handle digest)
    lift (raw_signature key signature)

  abbrev pub private_key : TpmKey Handle HashAlg → SigningPrivateKey X C
  private_key key = record {
    public_key = record { get_parameters = lift (ok key.parameters); verify = verify key };
    sign = sign key;
  }
