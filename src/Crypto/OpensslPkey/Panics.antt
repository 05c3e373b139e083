-- ===== src/Crypto/OpensslPkey/Panics.antt =====
-- When `verify` of src/crypto/openssl_pkey.rs panics.
use aws_nitro_enclaves_cose.Prelude.{ℕ, ◌<◌, Bytes, ◌≡◌, ◌↔◌, length}
use aws_nitro_enclaves_cose.Outcome.{panic, map_err, ◌>>=◌}
use aws_nitro_enclaves_cose.Outcome.Ensures.{Total, Total-bind, Total-map_err}
use aws_nitro_enclaves_cose.Error.{signature_error, foreign}
use aws_nitro_enclaves_cose.Crypto.Algorithms.{key_length}
use aws_nitro_enclaves_cose.Crypto.Signature.Panics.{panic_iff_of, split_at-Total, split_at_short}
use aws_nitro_enclaves_cose.Crypto.Openssl.Library.{EllipticCurves, EllipticCurvesLaws}
use aws_nitro_enclaves_cose.Crypto.OpensslPkey.{verify}
use aws_nitro_enclaves_cose.Crypto.OpensslPkey.Sound.{IsUsable, curve_of-eq}

-- Making a signature of two numbers, and checking it, may fail but does not panic.
pub record IsTotal {X W PKey EcKey EcdsaSig : Type 0} (lib : EllipticCurves X W PKey EcKey EcdsaSig)
    : Type 0 where
  pub bn_from_slice-Total : (b : Bytes) → Total (lib.bn_from_slice b)
  pub from_private_components-Total : (r s : ℕ) → Total (lib.from_private_components r s)
  pub to_der-Total : (g : EcdsaSig) → Total (lib.to_der g)
  pub ecdsa_verify-Total :
      (g : EcdsaSig) (d : Bytes) (key : EcKey) → Total (lib.ecdsa_verify g d key)

module _ {X W PKey EcKey EcdsaSig : Type 0} (lib : EllipticCurves X W PKey EcKey EcdsaSig)
    (T : IsTotal lib) where
  check-Total :
      (key : EcKey) (d p q : Bytes)
      → Total (
          map_err (λ e. signature_error (foreign e)) (lib.bn_from_slice p) >>= λ r.
          map_err (λ e. signature_error (foreign e)) (lib.bn_from_slice q) >>= λ t.
          map_err (λ e. signature_error (foreign e)) (lib.from_private_components r t) >>= λ g.
          map_err (λ e. signature_error (foreign e)) (lib.ecdsa_verify g d key))
  check-Total key d p q = Total-bind (Total-map_err _ (T.bn_from_slice-Total p)) λ r.
      Total-bind (Total-map_err _ (T.bn_from_slice-Total q)) λ t.
        Total-bind (Total-map_err _ (T.from_private_components-Total r t))
          λ g. Total-map_err _ (T.ecdsa_verify-Total g d key)

  -- A key on one of the three curves panics on a signature exactly if it is shorter than one number
  -- of the curve, whatever its bytes and the digest are. The library does not panic.
  pub verify_panic_iff_openssl :
      (L : EllipticCurvesLaws lib) (pkey : PKey) (u : IsUsable lib pkey) (d s : Bytes)
      → (verify lib pkey d s ≡ panic) ↔ (length s < key_length u.algorithm)
  unfolding verify
  verify_panic_iff_openssl L pkey u d s =
      rw (curve_of-eq lib L pkey u "Non-EC keys are not yet supported") (
        panic_iff_of (split_at-Total (key_length u.algorithm) s _ (check-Total u.key d))
          (split_at_short (key_length u.algorithm) s _))
