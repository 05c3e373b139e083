-- ===== src/Crypto/OpensslPkey/Sound.antt =====
-- An OpenSSL key accepts its own signatures: r and s survive the raw form.
use aws_nitro_enclaves_cose.Prelude.{
  ℕ, ◌<◌, ◌≤◌, Bytes, String, true, some, ◌≡◌, ◌∙◌, sym, ◌++◌, length, replicate, zero,
}
use aws_nitro_enclaves_cose.Outcome.{ok, panic, map_err, map_err-eq-ok, ok-injective, ◌>>=◌}
use aws_nitro_enclaves_cose.Call.{call_err, bind-elim}
use aws_nitro_enclaves_cose.Error.{CoseError, signature_error, foreign}
use aws_nitro_enclaves_cose.Crypto.Algorithms.{
  SignatureAlgorithm, key_length, suggested_message_digest,
}
use aws_nitro_enclaves_cose.Crypto.Traits.Contracts.{IsSound}
use aws_nitro_enclaves_cose.Crypto.Signature.{merge_ec_signature}
use aws_nitro_enclaves_cose.Crypto.Signature.Layout.{
  pad, length-pad, big_endian, big_endian-pad, big_endian-zeros_append, merge_ec_signature_lem,
  split_at-append, split_at_panic,
}
use aws_nitro_enclaves_cose.Crypto.Openssl.Library.{Nid, EllipticCurves, EllipticCurvesLaws}
use aws_nitro_enclaves_cose.Crypto.OpensslPkey.{
  curve_algorithm, ec_curve_to_parameters, curve_of, get_parameters, verify, sign, private_key,
}

-- A key on one of the three curves, whose ECDSA signatures verify and have numbers no longer than
-- the curve's.
pub record IsUsable {X W PKey EcKey EcdsaSig : Type 0}
    (lib : EllipticCurves X W PKey EcKey EcdsaSig) (pkey : PKey) : Type 0 where
  pub key : EcKey
  pub curve : Nid
  pub algorithm : SignatureAlgorithm
  pub ec_key-eq : lib.ec_key pkey ≡ ok key
  pub curve_name-eq : lib.curve_name key ≡ some curve
  pub curve_algorithm-eq : curve_algorithm {X = X} lib.debug curve ≡ ok algorithm
  pub sig_r_fits :
      (d : Bytes) (w : W) (g : EcdsaSig)
      → (lib.ecdsa_sign d key w).0 ≡ ok g
      → length (lib.bn_to_vec (lib.sig_r g)) ≤ key_length algorithm
  pub sig_s_fits :
      (d : Bytes) (w : W) (g : EcdsaSig)
      → (lib.ecdsa_sign d key w).0 ≡ ok g
      → length (lib.bn_to_vec (lib.sig_s g)) ≤ key_length algorithm
  pub ecdsa_verify-ecdsa_sign :
      (d : Bytes) (w : W) (g : EcdsaSig)
      → (lib.ecdsa_sign d key w).0 ≡ ok g
      → lib.ecdsa_verify g d key ≡ ok true

module _ {X W PKey EcKey EcdsaSig : Type 0} (lib : EllipticCurves X W PKey EcKey EcdsaSig)
    (L : EllipticCurvesLaws lib) (pkey : PKey) (u : IsUsable lib pkey) where
  abbrev width : ℕ
  width = key_length u.algorithm

  pub curve_of-eq :
      (non_ec : String)
      → curve_of lib non_ec pkey
        ≡ ok (u.key, (u.algorithm, suggested_message_digest u.algorithm, width))
  unfolding curve_of ec_curve_to_parameters
  curve_of-eq non_ec = rw (u.ec_key-eq, u.curve_name-eq, u.curve_algorithm-eq)

  -- On a signature whose first part is as wide as the curve, `verify` asks for the numbers of its
  -- two parts.
  pub verify-append :
      (d p q : Bytes)
      → length p ≡ width
      → verify lib pkey d (p ++ q) ≡ (
          map_err
            (λ e. signature_error (foreign e))
            (lib.from_private_components (big_endian p) (big_endian q))
          >>= λ g. map_err (λ e. signature_error (foreign e)) (lib.ecdsa_verify g d u.key))
  unfolding verify
  verify-append d p q e = rw (
    curve_of-eq "Non-EC keys are not yet supported",
    split_at-append width p q e,
    L.bn_from_slice-eq p,
    L.bn_from_slice-eq q,
  )

  pub sign-eq-ok :
      (d s : Bytes) (w : W)
      → (sign lib pkey d w).0 ≡ ok s
      → (g : EcdsaSig) × ((lib.ecdsa_sign d u.key w).0 ≡ ok g)
        × (merge_ec_signature {E = CoseError X}
              (lib.bn_to_vec (lib.sig_r g))
              (lib.bn_to_vec (lib.sig_s g))
              width
            ≡ ok s)
  unfolding sign
  sign-eq-ok d s w e =
      bind-elim (call_err (λ x. signature_error (foreign x)) (lib.ecdsa_sign d u.key)) _ w
        (rw (curve_of-eq "Non-EC keys are not yet supported") at e)
        λ g t e₁. (g, map_err-eq-ok _ _ t, e₁)

  -- What `sign` makes is the padded r before the padded s, and `verify` accepts it.
  verify-sign : (d s : Bytes) (w : W) → (sign lib pkey d w).0 ≡ ok s → verify lib pkey d s ≡ ok true
  verify-sign d s w e =
      let (g, t, m) = sign-eq-ok d s w e in
      let r = lib.bn_to_vec (lib.sig_r g) in
      let s' = lib.bn_to_vec (lib.sig_s g) in
      let fits = u.sig_r_fits d w g t in
      let raw =
        ok-injective (sym m ∙ merge_ec_signature_lem r s' width fits (u.sig_s_fits d w g t)) in
      rw (
        raw,
        verify-append d (pad width r) (pad width s') (length-pad width r fits),
        big_endian-pad width r,
        big_endian-pad width s',
        L.big_endian-bn_to_vec (lib.sig_r g),
        L.big_endian-bn_to_vec (lib.sig_s g),
        L.from_private_components-eq g,
        u.ecdsa_verify-ecdsa_sign d w g t,
      )

  pub get_parameters-eq :
      get_parameters lib pkey ≡ ok (u.algorithm, suggested_message_digest u.algorithm)
  unfolding get_parameters
  get_parameters-eq = rw (curve_of-eq "Non-EC keys are not supported")

  -- A key on one of the three curves is a sound signing key: it tells the same parameters at any
  -- time, and accepts the raw form of whatever it signed. Its ECDSA accepts its own signatures, with
  -- numbers no longer than the curve's.
  pub private_key_openssl-IsSound : IsSound (private_key lib pkey)
  private_key_openssl-IsSound = record {
    algorithm = u.algorithm;
    digest = suggested_message_digest u.algorithm;
    get_parameters-eq = λ k. rw get_parameters-eq;
    verify-sign = λ d s k k' e. verify-sign d s k e;
  }

  -- On a key of one of the three curves, a signature shorter than r makes `verify` panic.
  pub verify_short_openssl : (d s : Bytes) → length s < width → verify lib pkey d s ≡ panic
  unfolding verify
  verify_short_openssl d s h =
      rw (curve_of-eq "Non-EC keys are not yet supported", split_at_panic width s h)

  -- The second part of a signature may have any length: zeros in front of it change nothing, so that
  -- one signature has many accepted forms. The first part is as wide as the curve of the key.
  pub verify_zeros :
      (d p q : Bytes) (n : ℕ)
      → length p ≡ width
      → verify lib pkey d (p ++ (replicate n zero ++ q)) ≡ verify lib pkey d (p ++ q)
  verify_zeros d p q n e = rw (
    verify-append d p (replicate n zero ++ q) e,
    verify-append d p q e,
    big_endian-zeros_append n q,
  )
