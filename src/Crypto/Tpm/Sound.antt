-- ===== src/Crypto/Tpm/Sound.antt =====
-- That a TPM key of src/crypto/tpm.rs accepts its own signatures.
use aws_nitro_enclaves_cose.Prelude.{
  ◌<◌, ◌≤◌, Bytes, true, ◌≡◌, refl, ◌∙◌, ap, sym, arith, ◌++◌, length,
}
use aws_nitro_enclaves_cose.Outcome.{ok, panic, map_err, map_err-eq-ok, ok-injective}
use aws_nitro_enclaves_cose.Call.{lift, call_err, bind-elim}
use aws_nitro_enclaves_cose.Error.{CoseError, unsupported_error, tpm_error}
use aws_nitro_enclaves_cose.Crypto.Traits.Contracts.{IsSound}
use aws_nitro_enclaves_cose.Crypto.Signature.{merge_ec_signature}
use aws_nitro_enclaves_cose.Crypto.Signature.Layout.{
  pad, length-pad, merge_ec_signature_lem, split_at-append, split_at_panic,
}
use aws_nitro_enclaves_cose.Crypto.Tpm.Library.{TpmSignature, ec_dsa, other_signature, Tpm}
use aws_nitro_enclaves_cose.Crypto.Tpm.{
  TpmKey, to_tpm_signature, read_answer, verify, raw_signature, sign, private_key, expect,
}

module _ {X C Handle HashAlg : Type 0} (tpm : Tpm X C Handle HashAlg) where
  -- A signature shorter than r makes `verify` panic before the TPM is asked.
  pub verify_short_tpm :
      (key : TpmKey Handle HashAlg) (d s : Bytes) (context : C)
      → length s < key.key_length
      → verify tpm key d s context ≡ (panic, context)
  unfolding verify to_tpm_signature
  verify_short_tpm key d s context h = rw (split_at_panic key.key_length s h)

  raw_signature-eq-ok :
      (key : TpmKey Handle HashAlg) (g : TpmSignature) (raw : Bytes)
      → raw_signature tpm key g ≡ ok raw
      → (r : Bytes) × (s : Bytes) × (g ≡ ec_dsa r s)
        × (merge_ec_signature {E = CoseError X} r s key.key_length ≡ ok raw)
  unfolding raw_signature
  raw_signature-eq-ok key (ec_dsa r s) raw e = (r, s, refl, e)
  raw_signature-eq-ok key other_signature raw e = cc

  -- What `sign` returned was made of an ECDSA signature that the TPM gave for the digest.
  pub sign-eq-ok :
      (key : TpmKey Handle HashAlg) (d raw : Bytes) (context : C)
      → (sign tpm key d context).0 ≡ ok raw
      → (digest : Bytes) × (r : Bytes) × (s : Bytes) × (tpm.digest d ≡ ok digest)
        × ((tpm.sign key.key_handle digest context).0 ≡ ok (ec_dsa r s))
        × (merge_ec_signature {E = CoseError X} r s key.key_length ≡ ok raw)
  unfolding sign
  sign-eq-ok key d raw context e =
      bind-elim
        (lift (map_err (λ x. unsupported_error "Tried to sign invalid data") (tpm.digest d))) _
        context e
        λ digest p e₁.
          bind-elim
            (lift (
              map_err (λ x. unsupported_error "Unable to convert signature scheme")
                tpm.null_scheme))
            _ context e₁
            λ scheme q e₂.
              bind-elim (lift (expect tpm tpm.null_validation)) _ context e₂ λ validation v e₃.
                bind-elim (call_err tpm_error (tpm.sign key.key_handle digest)) _ context e₃
                  λ g t e₄.
                    let (r, s, g_is, m) = raw_signature-eq-ok key g raw e₄ in
                    (digest, r, s, map_err-eq-ok _ _ p, map_err-eq-ok _ _ t ∙ ap ok g_is, m)

  -- A TPM that signs and verifies with the key at any time: its components fit the key's width, and
  -- it accepts the padded components of what it signed.
  pub record IsServed (key : TpmKey Handle HashAlg) : Type 0 where
    pub signature_r_fits :
        (d r s : Bytes) (context : C)
        → (tpm.sign key.key_handle d context).0 ≡ ok (ec_dsa r s)
        → length r ≤ key.key_length
    pub signature_s_fits :
        (d r s : Bytes) (context : C)
        → (tpm.sign key.key_handle d context).0 ≡ ok (ec_dsa r s)
        → length s ≤ key.key_length
    pub ecc_parameter-eq : (b : Bytes) → length b ≤ key.key_length → tpm.ecc_parameter b ≡ ok b
    pub create-eq : (r s : Bytes) → tpm.create key.hash_alg r s ≡ ok (ec_dsa r s)
    pub verify_signature-sign :
        (d r s : Bytes) (context later : C)
        → (tpm.sign key.key_handle d context).0 ≡ ok (ec_dsa r s)
        → (tpm.verify_signature key.key_handle d
            (ec_dsa (pad key.key_length r) (pad key.key_length s))
            later).0
          ≡ ok tt

  module _ (key : TpmKey Handle HashAlg) (u : IsServed key) where
    to_tpm_signature-pad :
        (r s : Bytes)
        → length r ≤ key.key_length
        → length s ≤ key.key_length
        → to_tpm_signature tpm key (pad key.key_length r ++ pad key.key_length s)
          ≡ ok (ec_dsa (pad key.key_length r) (pad key.key_length s))
    unfolding to_tpm_signature
    to_tpm_signature-pad r s hr hs =
        let n = key.key_length in
        rw (
          split_at-append n (pad n r) (pad n s) (length-pad n r hr),
          u.ecc_parameter-eq (pad n r) (omega (arith, length-pad n r hr)),
          u.ecc_parameter-eq (pad n s) (omega (arith, length-pad n s hs)),
          u.create-eq (pad n r) (pad n s),
        )

    verify-sign :
        (d raw : Bytes) (context later : C)
        → (sign tpm key d context).0 ≡ ok raw
        → (verify tpm key d raw later).0 ≡ ok true
    unfolding verify read_answer
    verify-sign d raw context later e =
        let (digest, r, s, digest_is, signed, m) = sign-eq-ok key d raw context e in
        let hr = u.signature_r_fits digest r s context signed in
        let hs = u.signature_s_fits digest r s context signed in
        let raw_is = ok-injective (sym m ∙ merge_ec_signature_lem r s key.key_length hr hs) in
        rw (
          raw_is,
          to_tpm_signature-pad r s hr hs,
          digest_is,
          u.verify_signature-sign digest r s context later signed,
        )

    -- A TPM key is a sound signing key where the TPM signs with components that fit the key's width
    -- and accepts what it signed with its components padded to that width: the raw form loses
    -- nothing else.
    pub private_key_tpm-IsSound : IsSound (private_key tpm key)
    private_key_tpm-IsSound = record {
      algorithm = key.parameters.0;
      digest = key.parameters.1;
      get_parameters-eq = λ k. refl;
      verify-sign = λ d s k k' e. verify-sign d s k k' e;
    }
