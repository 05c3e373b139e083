-- ===== src/Crypto/OpensslPkey/Accepts.antt =====
-- Which signatures `verify` of src/crypto/openssl_pkey.rs accepts.
use aws_nitro_enclaves_cose.Prelude.{
  ℕ, ◌≤◌, leb, leb→le, Bool-cases, inl, inr, arith, ap, ◌∙◌, Bytes, true, ◌≡◌, ◌↔◌, sym, length,
  take, drop, take-append-drop, length-take_le,
}
use aws_nitro_enclaves_cose.Outcome.{ok, map_err, map_err-eq-ok, bind-elim, ◌>>=◌}
use aws_nitro_enclaves_cose.Error.{signature_error, foreign}
use aws_nitro_enclaves_cose.Crypto.Algorithms.{key_length}
use aws_nitro_enclaves_cose.Crypto.Signature.Layout.{big_endian}
use aws_nitro_enclaves_cose.Crypto.Openssl.Library.{EllipticCurves, EllipticCurvesLaws}
use aws_nitro_enclaves_cose.Crypto.OpensslPkey.{verify}
use aws_nitro_enclaves_cose.Crypto.OpensslPkey.Sound.{IsUsable, verify-append, verify_short_openssl}

module _ {X W PKey EcKey EcdsaSig : Type 0} (lib : EllipticCurves X W PKey EcKey EcdsaSig) where
  -- The signature of the two numbers in `s`, the first one `n` bytes long.
  pub record IsRaw (n : ℕ) (s : Bytes) (g : EcdsaSig) : Type 0 where
    pub long_enough : n ≤ length s
    pub components :
        lib.from_private_components (big_endian (take n s)) (big_endian (drop n s)) ≡ ok g

  module _ (L : EllipticCurvesLaws lib) (pkey : PKey) (u : IsUsable lib pkey) where
    verify-cut :
        (d s : Bytes)
        → key_length u.algorithm ≤ length s
        → verify lib pkey d s ≡ (
            map_err
              (λ e. signature_error (foreign e))
              (lib.from_private_components
                (big_endian (take (key_length u.algorithm) s))
                (big_endian (drop (key_length u.algorithm) s)))
            >>= λ g. map_err (λ e. signature_error (foreign e)) (lib.ecdsa_verify g d u.key))
    verify-cut d s fits =
        let n = key_length u.algorithm in
        sym (ap (verify lib pkey d) (take-append-drop n s))
        ∙ verify-append lib L pkey u d (take n s) (drop n s) (length-take_le n s fits)

    verify-eq-true :
        (d s : Bytes)
        → verify lib pkey d s ≡ ok true
        → (g : EcdsaSig) × IsRaw (key_length u.algorithm) s g
          × (lib.ecdsa_verify g d u.key ≡ ok true)
    verify-eq-true d s e = elim (Bool-cases (leb (key_length u.algorithm) (length s))) [
      | inl fits ↦
          let long_enough = leb→le (key_length u.algorithm) (length s) fits in
          bind-elim (map_err _ (lib.from_private_components _ _)) _
            (sym (verify-cut d s long_enough) ∙ e)
            λ g made accepted. (
              g,
              record { long_enough = long_enough; components = map_err-eq-ok _ _ made },
              map_err-eq-ok _ _ accepted,
            )
      | inr short ↦ ground (arith, verify_short_openssl lib L pkey u d s (ground arith))
    ]

    -- With a key on one of the three curves, `verify` gives true exactly for a signature that is at
    -- least as long as one number of the curve, whose two parts are numbers that make an ECDSA
    -- signature which the library accepts for the digest.
    pub verify-eq-true_iff_openssl :
        (d s : Bytes)
        → (verify lib pkey d s ≡ ok true) ↔ (
            (g : EcdsaSig) × IsRaw (key_length u.algorithm) s g
            × (lib.ecdsa_verify g d u.key ≡ ok true))
    verify-eq-true_iff_openssl d s = (
      verify-eq-true d s,
      λ (g, raw, accepted). rw (verify-cut d s raw.long_enough, raw.components, accepted),
    )
