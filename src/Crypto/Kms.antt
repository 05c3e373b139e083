-- ===== src/Crypto/Kms.antt =====
-- src/crypto/kms.rs: a key of AWS KMS as a signing key.
pub mod Requests
pub mod Sound
pub mod Panics
pub mod Branches
pub mod Accepts
pub mod Created
pub mod Local
use aws_nitro_enclaves_cose.Prelude.{
  ℕ, zero, ◌+◌, ◌-◌, ◌*◌, Bytes, String, Bool, true, false, Option, none, some, is_some, leb,
  if◌then◌else◌, length, replicate,
}
use aws_nitro_enclaves_cose.Outcome.{Outcome, ok, err, panic, map_err, map_ok, ok_or, unwrap}
use aws_nitro_enclaves_cose.Outcome
use aws_nitro_enclaves_cose.Call.{Call, lift, call_err, ◌>>=◌}
use aws_nitro_enclaves_cose.Error.{
  CoseError, signature_error, unsupported_error, aws_sign_error, aws_verify_error,
  aws_get_public_key_error, foreign,
}
use aws_nitro_enclaves_cose.Crypto.Algorithms.{
  SignatureAlgorithm, MessageDigest, es256, es384, es512, key_length, suggested_message_digest,
}
use aws_nitro_enclaves_cose.Crypto.Traits.{SigningPublicKey, SigningPrivateKey}
use aws_nitro_enclaves_cose.Crypto.Signature.{assert, split_at, copy_from_slice}
use aws_nitro_enclaves_cose.Crypto.Openssl.Library.{EllipticCurves}
use aws_nitro_enclaves_cose.Crypto.OpensslPkey.{ec_curve_to_parameters}
use aws_nitro_enclaves_cose.Crypto.OpensslPkey
use aws_nitro_enclaves_cose.Crypto.Kms.Requests.{
  SigningAlgorithmSpec, ecdsa_sha_256, ecdsa_sha_384, ecdsa_sha_512, Service,
}

-- `struct KmsKey`. Its client is the service `S` that the methods call.
pub record KmsKey (PKey : Type 0) : Type 0 where
  pub key_id : String
  pub sig_alg : SignatureAlgorithm
  pub public_key : Option PKey

module _ {X S W PKey EcKey EcdsaSig : Type 0} (lib : EllipticCurves X W PKey EcKey EcdsaSig)
    (client : Service X S) where
  unfoldable pub new : String → SignatureAlgorithm → Outcome (CoseError X) (KmsKey PKey)
  new key_id sig_alg = ok record { key_id = key_id; sig_alg = sig_alg; public_key = none }

  -- The key passed in, or the one that the service has.
  unfoldable pub obtain_public_key : String → Option PKey → Call (CoseError X) S PKey
  obtain_public_key key_id (some key) = lift (ok key)
  obtain_public_key key_id none = do
    reply ← call_err aws_get_public_key_error (client.get_public_key key_id)
    der ← lift (ok_or (unsupported_error "No public key returned") reply)
    lift (map_err (λ e. signature_error (foreign e)) (lib.public_key_from_der der))

  unfoldable pub new_with_public_key : String → Option PKey → Call (CoseError X) S (KmsKey PKey)
  new_with_public_key key_id public_key = do
    key ← obtain_public_key key_id public_key
    ec_key ←
        lift (map_err (λ e. unsupported_error "Non-EC keys are not supported") (lib.ec_key key))
    curve_name ←
        lift
          (ok_or (unsupported_error "Anonymous EC keys are not supported") (lib.curve_name ec_key))
    parameters ← lift (ec_curve_to_parameters lib.debug curve_name)
    lift (ok record { key_id = key_id; sig_alg = parameters.0; public_key = some key })

  unfoldable pub get_sig_alg_spec : KmsKey PKey → SigningAlgorithmSpec
  get_sig_alg_spec k = elim k.sig_alg [
    | es256 ↦ ecdsa_sha_256
    | es384 ↦ ecdsa_sha_384
    | es512 ↦ ecdsa_sha_512
  ]

  unfoldable pub get_parameters :
      KmsKey PKey → Outcome (CoseError X) (SignatureAlgorithm × MessageDigest)
  get_parameters k = ok (k.sig_alg, suggested_message_digest k.sig_alg)

  -- The DER form of a raw signature.
  unfoldable pub to_der : KmsKey PKey → Bytes → Outcome (CoseError X) Bytes
  to_der k signature =
      let wrap = λ (e : X). signature_error (foreign e) in
      Outcome.◌>>=◌ (split_at (key_length k.sig_alg) signature) λ parts.
        Outcome.◌>>=◌ (map_err wrap (lib.bn_from_slice parts.0)) λ r.
          Outcome.◌>>=◌ (map_err wrap (lib.bn_from_slice parts.1)) λ s.
            Outcome.◌>>=◌ (map_err wrap (lib.from_private_components r s))
              λ sig. map_err wrap (lib.to_der sig)

  -- The match on the service's reply.
  unfoldable pub read_reply : Outcome X Bool → Outcome (CoseError X) Bool
  read_reply (ok v) = ok v
  read_reply (err e) = if client.is_invalid_signature e then ok false else err (aws_verify_error e)
  read_reply panic = panic

  unfoldable pub verify_remotely : KmsKey PKey → Bytes → Bytes → Call (CoseError X) S Bool
  verify_remotely k text signature = do
    sig ← lift (to_der k signature)
    λ state.
        let reply = client.verify k.key_id text (get_sig_alg_spec k) sig state in
        (read_reply reply.0, reply.1)

  -- The public key is unwrapped: it must be there.
  unfoldable pub verify_with_public_key : KmsKey PKey → Bytes → Bytes → Outcome (CoseError X) Bool
  verify_with_public_key k text signature =
      Outcome.◌>>=◌ (unwrap k.public_key) λ key. OpensslPkey.verify lib key text signature

  unfoldable pub verify : KmsKey PKey → Bytes → Bytes → Call (CoseError X) S Bool
  verify k text signature =
      if is_some k.public_key
      then lift (verify_with_public_key k text signature)
      else verify_remotely k text signature

  -- The raw form of a DER signature. These lines of `sign` are those of `merge_ec_signature`.
  unfoldable pub raw_signature : Bytes → Bytes → ℕ → Outcome (CoseError X) Bytes
  raw_signature bytes_r bytes_s key_length =
      Outcome.◌>>◌ (assert (leb (length bytes_r) key_length)) (
        Outcome.◌>>◌ (assert (leb (length bytes_s) key_length)) (
          let signature_bytes = replicate (key_length * 2) zero in
          let offset_r = key_length - length bytes_r in
          Outcome.◌>>=◌ (copy_from_slice signature_bytes offset_r bytes_r) λ with_r.
            let offset_s = key_length - length bytes_s + key_length in
            copy_from_slice with_r offset_s bytes_s))

  unfoldable pub sign : KmsKey PKey → Bytes → Call (CoseError X) S Bytes
  sign k text = do
    reply ← call_err aws_sign_error (client.sign k.key_id text (get_sig_alg_spec k))
    der ← lift (ok_or (unsupported_error "No signature returned") reply)
    sig ← lift (map_err (λ e. signature_error (foreign e)) (lib.from_der der))
    lift (
        raw_signature (lib.bn_to_vec (lib.sig_r sig)) (lib.bn_to_vec (lib.sig_s sig))
          (key_length k.sig_alg))

  abbrev pub private_key : KmsKey PKey → SigningPrivateKey X S
  private_key k = record {
    public_key = record { get_parameters = lift (get_parameters k); verify = verify k };
    sign = sign k;
  }
