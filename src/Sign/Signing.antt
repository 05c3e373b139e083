-- ===== src/Sign/Signing.antt =====
-- `CoseSign1` of src/sign.rs at work: `new`, `new_with_protected`, `verify_signature` and the
-- functions that hand out the contents.
pub mod Verify
pub mod Create
pub mod Release
pub mod Rejected
pub mod Travel
pub mod Authentic
pub mod Outcomes
pub mod Panics
pub mod Readers
pub mod Live
use aws_nitro_enclaves_cose.Prelude.{
  ℤ, pos, eqb, Bytes, Bool, true, false, Option, none, some, if◌then◌else◌,
}
use aws_nitro_enclaves_cose.Outcome.{Outcome, ok, err, map_err}
use aws_nitro_enclaves_cose.Call.{Call, lift, ◌>>=◌}
use aws_nitro_enclaves_cose.Error.{
  CoseError, serialization_error, signature_error, specification_error, unverified_signature, cose,
}
use aws_nitro_enclaves_cose.Serde.{Cbor, View, integer}
use aws_nitro_enclaves_cose.HeaderMap
use aws_nitro_enclaves_cose.HeaderMap.{HeaderMap}
use aws_nitro_enclaves_cose.Crypto.Algorithms.{SignatureAlgorithm, MessageDigest, discriminant}
use aws_nitro_enclaves_cose.Crypto.Traits.{Hash, SigningPublicKey, SigningPrivateKey}
use aws_nitro_enclaves_cose.Sign.Structure
use aws_nitro_enclaves_cose.Sign.Message.{CoseSign1}

module _ {X V : Type 0} (c : Cbor X V) where
  -- The test of the `alg` parameter in `verify_signature`.
  unfoldable pub algorithm_matches : HeaderMap V → SignatureAlgorithm → Outcome (CoseError X) Bool
  algorithm_matches protected signature_alg =
      elim (HeaderMap.get c (c.of_integer (pos 1)) protected) [
        | some v ↦ elim (c.view v) [
          | integer val ↦ ok (eqb val (discriminant signature_alg))
          | _ ↦ err (
              specification_error
                "Protected Header contains invalid Signature Algorithm specification")
        ]
        | none ↦ err (
            specification_error
              "Protected Header does not contain a valid Signature Algorithm specification")
      ]

module _ {X V K : Type 0} (c : Cbor X V) (h : Hash X) where
  unfoldable pub new_with_protected :
      SigningPrivateKey X K → Bytes → HeaderMap V → HeaderMap V → Call (CoseError X) K (CoseSign1 V)
  new_with_protected key payload protected unprotected = do
    (sig_alg, digest) ← key.get_parameters
    protected_bytes ←
        lift (map_err serialization_error (HeaderMap.map_to_empty_or_serialized c protected))
    struct_digest ← lift (Structure.struct_digest c h digest protected_bytes payload)
    signature ← key.sign struct_digest
    lift (
        ok record {
          protected = protected_bytes;
          unprotected = unprotected;
          payload = payload;
          signature = signature;
        })

  unfoldable pub new :
      SigningPrivateKey X K → Bytes → HeaderMap V → Call (CoseError X) K (CoseSign1 V)
  new key payload unprotected = do
    (sig_alg, digest) ← key.get_parameters
    let protected =
        (HeaderMap.insert c (c.of_integer (pos 1)) (c.of_integer (discriminant sig_alg))
          HeaderMap.new).1
    new_with_protected key payload protected unprotected

  unfoldable pub verify_signature : CoseSign1 V → SigningPublicKey X K → Call (CoseError X) K Bool
  verify_signature message key = do
    (signature_alg, digest) ← key.get_parameters
    protected ← lift (map_err serialization_error (HeaderMap.from_bytes c message.protected))
    is_expected ← lift (algorithm_matches c protected signature_alg)
    let struct_digest = Structure.struct_digest c h digest message.protected message.payload
    if is_expected
        then (lift struct_digest >>= λ d. key.verify d message.signature)
        else lift (ok false)

  -- `if key.is_some() && !self.verify_signature(key.unwrap())? { return Err(UnverifiedSignature) }`
  unfoldable pub check_key :
      CoseSign1 V → Option (SigningPublicKey X K) → Call (CoseError X) K (Unit {0})
  check_key message none = lift (ok tt)
  check_key message (some key) = do
    verified ← verify_signature message key
    lift (if verified then ok tt else err unverified_signature)

  unfoldable pub get_protected_and_payload :
      CoseSign1 V → Option (SigningPublicKey X K) → Call (CoseError X) K (HeaderMap V × Bytes)
  get_protected_and_payload message key = do
    checked ← check_key message key
    protected ← lift (map_err serialization_error (HeaderMap.from_bytes c message.protected))
    lift (ok (protected, message.payload))

  unfoldable pub get_payload :
      CoseSign1 V → Option (SigningPublicKey X K) → Call (CoseError X) K Bytes
  get_payload message key = do checked ← check_key message key; lift (ok message.payload)

unfoldable pub get_unprotected : {V : Type 0} → CoseSign1 V → HeaderMap V
get_unprotected message = message.unprotected
