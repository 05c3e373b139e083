-- ===== src/Crypto/OpensslPkey.antt =====
-- src/crypto/openssl_pkey.rs: an OpenSSL key as a signing key.
pub mod Sound
pub mod Panics
pub mod Accepts
use Prim.Native.String.{◌++◌ as ◌<>◌}
use aws_nitro_enclaves_cose.Prelude.{ℕ, Bytes, String, Bool}
use aws_nitro_enclaves_cose.Outcome.{Outcome, ok, err, map_err, ok_or, ◌>>=◌}
use aws_nitro_enclaves_cose.Call.{Call, lift, call_err}
use aws_nitro_enclaves_cose.Call
use aws_nitro_enclaves_cose.Error.{CoseError, signature_error, unsupported_error, foreign}
use aws_nitro_enclaves_cose.Crypto.Algorithms.{
  SignatureAlgorithm, MessageDigest, es256, es384, es512, key_length, suggested_message_digest,
}
use aws_nitro_enclaves_cose.Crypto.Traits.{SigningPublicKey, SigningPrivateKey}
use aws_nitro_enclaves_cose.Crypto.Signature.{split_at, merge_ec_signature}
use aws_nitro_enclaves_cose.Crypto.Openssl.Library.{
  Nid, x9_62_prime256v1, secp384r1, secp521r1, other_nid, EllipticCurves,
}

-- The algorithm of a curve.
unfoldable pub curve_algorithm :
    {X : Type 0} → (Nid → String) → Nid → Outcome (CoseError X) SignatureAlgorithm
curve_algorithm debug x9_62_prime256v1 = ok es256
curve_algorithm debug secp384r1 = ok es384
curve_algorithm debug secp521r1 = ok es512
curve_algorithm debug (other_nid n) =
    err (unsupported_error ("Curve name " <> (debug (other_nid n) <> " is not supported")))

unfoldable pub ec_curve_to_parameters :
    {X : Type 0}
    → (Nid → String)
    → Nid
    → Outcome (CoseError X) (SignatureAlgorithm × MessageDigest × ℕ)
ec_curve_to_parameters debug curve_name = do
  sig_alg ← curve_algorithm debug curve_name
  ok (sig_alg, suggested_message_digest sig_alg, key_length sig_alg)

module _ {X W PKey EcKey EcdsaSig : Type 0} (lib : EllipticCurves X W PKey EcKey EcdsaSig) where
  -- The lines that the methods begin with: the EC key, and the parameters of its curve.
  unfoldable pub curve_of :
      String → PKey → Outcome (CoseError X) (EcKey × (SignatureAlgorithm × MessageDigest × ℕ))
  curve_of non_ec pkey = do
    key ← map_err (λ e. unsupported_error non_ec) (lib.ec_key pkey)
    curve_name ←
        ok_or (unsupported_error "Anonymous EC keys are not supported") (lib.curve_name key)
    parameters ← ec_curve_to_parameters lib.debug curve_name
    ok (key, parameters)

  -- `impl SigningPublicKey for PKeyRef`, to which that of `PKey` hands on
  unfoldable pub get_parameters : PKey → Outcome (CoseError X) (SignatureAlgorithm × MessageDigest)
  get_parameters pkey = do
    (key, parameters) ← curve_of "Non-EC keys are not supported" pkey
    ok (parameters.0, parameters.1)

  unfoldable pub verify : PKey → Bytes → Bytes → Outcome (CoseError X) Bool
  verify pkey digest signature = do
    (key, parameters) ← curve_of "Non-EC keys are not yet supported" pkey
    (bytes_r, bytes_s) ← split_at parameters.2 signature
    r ← map_err (λ e. signature_error (foreign e)) (lib.bn_from_slice bytes_r)
    s ← map_err (λ e. signature_error (foreign e)) (lib.bn_from_slice bytes_s)
    sig ← map_err (λ e. signature_error (foreign e)) (lib.from_private_components r s)
    map_err (λ e. signature_error (foreign e)) (lib.ecdsa_verify sig digest key)

  -- `impl SigningPrivateKey for PKeyRef`, to which that of `PKey` hands on
  unfoldable pub sign : PKey → Bytes → Call (CoseError X) W Bytes
  sign pkey digest =
      Call.◌>>=◌ (lift (curve_of "Non-EC keys are not yet supported" pkey)) λ (key, parameters).
        Call.◌>>=◌ (call_err (λ e. signature_error (foreign e)) (lib.ecdsa_sign digest key)) λ sig.
          lift (
            merge_ec_signature (lib.bn_to_vec (lib.sig_r sig)) (lib.bn_to_vec (lib.sig_s sig))
              parameters.2)

  abbrev pub public_key : PKey → SigningPublicKey X W
  public_key pkey = record {
    get_parameters = lift (get_parameters pkey);
    verify = λ digest signature. lift (verify pkey digest signature);
  }

  abbrev pub private_key : PKey → SigningPrivateKey X W
  private_key pkey = record { public_key = public_key pkey; sign = sign pkey }
