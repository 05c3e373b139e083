-- ===== src/Sign/Signing/Release.antt =====
-- When `get_payload` and `get_protected_and_payload` of src/sign.rs hand out the contents.
use aws_nitro_enclaves_cose.Prelude.{Bytes, Bool, true, false, ◌≡◌, ◌↔◌, some, none, arith}
use aws_nitro_enclaves_cose.Outcome.{Outcome, ok, err, panic, map_err, ◌>>=◌ as bind}
use aws_nitro_enclaves_cose.Error.{CoseError, serialization_error, unverified_signature}
use aws_nitro_enclaves_cose.Serde.{Cbor}
use aws_nitro_enclaves_cose.HeaderMap
use aws_nitro_enclaves_cose.HeaderMap.{HeaderMap}
use aws_nitro_enclaves_cose.Crypto.Traits.{Hash, SigningPublicKey}
use aws_nitro_enclaves_cose.Sign.Message.{CoseSign1}
use aws_nitro_enclaves_cose.Sign.Signing.{
  verify_signature, check_key, get_protected_and_payload, get_payload,
}

-- The answer to a request for `contents` when the verification ended so.
abbrev pub released :
    {X A : Type 0} → Outcome (CoseError X) A → Outcome (CoseError X) Bool → Outcome (CoseError X) A
released contents (ok true) = contents
released contents (ok false) = err unverified_signature
released contents (err e) = err e
released contents panic = panic

module _ {X V K : Type 0} (c : Cbor X V) (h : Hash X) where
  -- With a key, both functions give the contents if the signature is verified,
  -- `UnverifiedSignature` if it is not, and otherwise the verification's own error or panic. The
  -- key's state is that which the verification leaves.
  pub get_payload_lem :
      (m : CoseSign1 V) (key : SigningPublicKey X K) (k : K)
      → let verified = verify_signature c h m key k in
        (get_payload c h m (some key) k ≡ (released (ok m.payload) verified.0, verified.1))
        × (get_protected_and_payload c h m (some key) k ≡ (
          released
              (bind
                (map_err serialization_error (HeaderMap.from_bytes c m.protected))
                (λ p. ok (p, m.payload)))
              verified.0,
          verified.1,
        ))
  unfolding get_payload get_protected_and_payload check_key
  get_payload_lem m key k = ground arith

  -- Without a key the contents are given unchecked, and no key is asked.
  pub get_payload_unchecked :
      (m : CoseSign1 V) (k : K)
      → (get_payload c h m none k ≡ (ok m.payload, k))
        × (get_protected_and_payload c h m none k ≡ (
          bind
              (map_err serialization_error (HeaderMap.from_bytes c m.protected))
              (λ p. ok (p, m.payload)),
          k,
        ))
  unfolding get_payload get_protected_and_payload check_key
  get_payload_unchecked m k = ground arith

  -- With a key, the payload is given exactly when the signature is verified.
  pub get_payload_iff :
      (m : CoseSign1 V) (key : SigningPublicKey X K) (k : K) (p : Bytes)
      → ((get_payload c h m (some key) k).0 ≡ ok p)
        ↔ (((verify_signature c h m key k).0 ≡ ok true) × (p ≡ m.payload))
  unfolding get_payload check_key
  get_payload_iff m key k p = ground arith

  -- With a key, the protected headers and the payload are given exactly when the signature is
  -- verified, and then they are the header map that the protected bytes hold and the payload.
  pub get_protected_and_payload_iff :
      (m : CoseSign1 V) (key : SigningPublicKey X K) (k : K) (header : HeaderMap V) (p : Bytes)
      → ((get_protected_and_payload c h m (some key) k).0 ≡ ok (header, p)) ↔ (
          ((verify_signature c h m key k).0 ≡ ok true)
          × (HeaderMap.from_bytes c m.protected ≡ ok header)
          × (p ≡ m.payload))
  unfolding get_protected_and_payload check_key
  get_protected_and_payload_iff m key k header p = ground arith
