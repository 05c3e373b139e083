-- ===== src/Crypto/Tpm/Supported.antt =====
-- Of which keys `TpmKey::public_to_parameters` of src/crypto/tpm.rs makes parameters.
use aws_nitro_enclaves_cose.Prelude.{ℕ, ◌≡◌, ◌≢◌, ◌⊎◌, ◌↔◌, arith}
use mathlib.Core.Path.{subst}
use aws_nitro_enclaves_cose.Outcome.{ok, map_err, map_err-eq-ok, ok-injective}
use aws_nitro_enclaves_cose.Outcome
use aws_nitro_enclaves_cose.Error.{unsupported_error}
use aws_nitro_enclaves_cose.Crypto.Algorithms.{
  SignatureAlgorithm, MessageDigest, es256, es384, es512, sha256, sha384, sha512,
}
use aws_nitro_enclaves_cose.Crypto.Tpm.Library.{TpmtPublic, Constants, Tpm}
use aws_nitro_enclaves_cose.Crypto.Tpm.{
  check_type, curve_parameters, check_scheme, digest_of, public_to_parameters,
}

module _ (k : Constants) where
  -- A key of an elliptic curve, by one name or the other.
  abbrev pub IsEcc : ℕ → Type 0
  IsEcc type_ = (type_ ≡ k.alg_ecdsa) ⊎ (type_ ≡ k.alg_ecc)

  -- The curve is the first of the three that has the id, the algorithm is that of the curve, and a
  -- number of the curve takes `n` bytes.
  abbrev pub IsCurve : ℕ → SignatureAlgorithm → ℕ → Type 0
  IsCurve id a n =
      ((id ≡ k.ecc_nist_p256) × (a ≡ es256) × (n ≡ 32))
      ⊎ ((id ≢ k.ecc_nist_p256) × (id ≡ k.ecc_nist_p384) × (a ≡ es384) × (n ≡ 48))
      ⊎ ((id ≢ k.ecc_nist_p256)
          × (id ≢ k.ecc_nist_p384)
          × (id ≡ k.ecc_nist_p521)
          × (a ≡ es512)
          × (n ≡ 66))

  -- The hash is the first of the three that has the id.
  abbrev pub IsHash : ℕ → MessageDigest → Type 0
  IsHash id d =
      ((id ≡ k.alg_sha256) × (d ≡ sha256))
      ⊎ ((id ≢ k.alg_sha256) × (id ≡ k.alg_sha384) × (d ≡ sha384))
      ⊎ ((id ≢ k.alg_sha256) × (id ≢ k.alg_sha384) × (id ≡ k.alg_sha512) × (d ≡ sha512))

  module _ {X : Type 0} where
    check_type_iff : (t : ℕ) → (check_type {X = X} k t ≡ ok tt) ↔ IsEcc t
    unfolding check_type
    check_type_iff t = ground arith

    check_scheme_iff : (t : ℕ) → (check_scheme {X = X} k t ≡ ok tt) ↔ (t ≡ k.alg_ecdsa)
    unfolding check_scheme
    check_scheme_iff t = ground arith

    curve_parameters_iff :
        (id : ℕ) (a : SignatureAlgorithm) (n : ℕ)
        → (curve_parameters {X = X} k id ≡ ok (a, n)) ↔ IsCurve id a n
    unfolding curve_parameters
    curve_parameters_iff id a n = ground arith

    digest_of_iff : (id : ℕ) (d : MessageDigest) → (digest_of {X = X} k id ≡ ok d) ↔ IsHash id d
    unfolding digest_of
    digest_of_iff id d = ground arith

module _ {X C Handle HashAlg : Type 0} (tpm : Tpm X C Handle HashAlg) where
  -- A key with its algorithm, its digest, the hash of the library and the width of its numbers.
  pub record IsSupported (public : TpmtPublic) (a : SignatureAlgorithm) (d : MessageDigest)
      (h : HashAlg) (n : ℕ) : Type 0 where
    pub type_is_ecc : IsEcc tpm.constants public.type_
    pub curve : IsCurve tpm.constants public.curve_id a n
    pub scheme_is_ecdsa : public.scheme ≡ tpm.constants.alg_ecdsa
    pub digest : IsHash tpm.constants public.hash_alg d
    pub hash_alg : tpm.hashing_algorithm public.hash_alg ≡ ok h

  -- The pieces of a result.
  IsSupported-of_result :
      (public : TpmtPublic) (a : SignatureAlgorithm) (d : MessageDigest) (h : HashAlg) (n : ℕ)
      → public_to_parameters tpm public ≡ ok ((a, d), h, n)
      → IsSupported public a d h n
  unfolding public_to_parameters
  IsSupported-of_result public a d h n e =
      Outcome.bind-elim (check_type tpm.constants public.type_) _ e λ u t e₁.
        Outcome.bind-elim (curve_parameters tpm.constants public.curve_id) _ e₁ λ (a', n') c e₂.
          Outcome.bind-elim (check_scheme tpm.constants public.scheme) _ e₂ λ v s e₃.
            Outcome.bind-elim (digest_of tpm.constants public.hash_alg) _ e₃ λ d' g e₄.
              Outcome.bind-elim
                (map_err (λ x. unsupported_error "Unsupported hashing algorithm")
                  (tpm.hashing_algorithm public.hash_alg))
                _ e₄
                λ h' q e₅.
                  subst
                    (λ (x : (SignatureAlgorithm × MessageDigest) × HashAlg × ℕ).
                      IsSupported public x.0.0 x.0.1 x.1 x.2)
                    (ok-injective e₅)
                    (record {
                      type_is_ecc = (check_type_iff tpm.constants public.type_).0 t;
                      curve = (curve_parameters_iff tpm.constants public.curve_id a' n').0 c;
                      scheme_is_ecdsa = (check_scheme_iff tpm.constants public.scheme).0 s;
                      digest = (digest_of_iff tpm.constants public.hash_alg d').0 g;
                      hash_alg = map_err-eq-ok _ _ q;
                    })

  result_of_supported :
      (public : TpmtPublic) (a : SignatureAlgorithm) (d : MessageDigest) (h : HashAlg) (n : ℕ)
      → IsSupported public a d h n
      → public_to_parameters tpm public ≡ ok ((a, d), h, n)
  unfolding public_to_parameters
  result_of_supported public a d h n s = rw (
    (check_type_iff tpm.constants public.type_).1 s.type_is_ecc,
    (curve_parameters_iff tpm.constants public.curve_id a n).1 s.curve,
    (check_scheme_iff tpm.constants public.scheme).1 s.scheme_is_ecdsa,
    (digest_of_iff tpm.constants public.hash_alg d).1 s.digest,
    s.hash_alg,
  )

  -- `public_to_parameters` gives an algorithm, a digest, a hash and a width exactly for a key of an
  -- elliptic curve with the ECDSA scheme, whose curve is P-256 for ES256 and 32 bytes, P-384 for ES384
  -- and 48 bytes, or P-521 for ES512 and 66 bytes, and whose own hash is SHA-256, SHA-384 or SHA-512,
  -- whatever the curve, and is known to the library. Of names with one id the first counts.
  pub public_to_parameters_iff :
      (public : TpmtPublic) (a : SignatureAlgorithm) (d : MessageDigest) (h : HashAlg) (n : ℕ)
      → (public_to_parameters tpm public ≡ ok ((a, d), h, n)) ↔ IsSupported public a d h n
  public_to_parameters_iff public a d h n =
      (IsSupported-of_result public a d h n, result_of_supported public a d h n)
