-- ===== src/Crypto/Kms/Sound.antt =====
-- A KMS key against its service: its signatures, and how the service's answers are read.
use aws_nitro_enclaves_cose.Prelude.{
  if◌then◌else◌, ℕ, ◌<◌, ◌≤◌, Bytes, Bool, true, false, some, none, ◌≡◌, refl, ◌∙◌, ap, sym, arith,
  ◌++◌, length,
}
use aws_nitro_enclaves_cose.Outcome.{ok, err, panic, map_err, map_err-eq-ok, ok_or, ok-injective}
use aws_nitro_enclaves_cose.Call.{lift, call_err, bind-elim}
use aws_nitro_enclaves_cose.Error.{
  CoseError, unsupported_error, signature_error, aws_sign_error, aws_verify_error, foreign,
}
use aws_nitro_enclaves_cose.Crypto.Algorithms.{key_length, suggested_message_digest}
use aws_nitro_enclaves_cose.Crypto.Traits.Contracts.{IsSound}
use aws_nitro_enclaves_cose.Crypto.Signature.{merge_ec_signature}
use aws_nitro_enclaves_cose.Crypto.Signature.Layout.{
  pad, length-pad, big_endian, big_endian-pad, merge_ec_signature_lem, split_at-append,
  split_at_panic,
}
use aws_nitro_enclaves_cose.Crypto.Openssl.Library.{EllipticCurves, EllipticCurvesLaws}
use aws_nitro_enclaves_cose.Crypto.Kms.{
  KmsKey, get_sig_alg_spec, get_parameters, to_der, read_reply, verify_remotely, verify,
  raw_signature, sign, private_key,
}
use aws_nitro_enclaves_cose.Crypto.Kms.Branches.{verify-eq-verify_remotely}
use aws_nitro_enclaves_cose.Crypto.Kms.Requests.{Service}

-- A key for which the service signs and verifies at any time: its signatures have numbers that fit,
-- and it accepts the DER form of what it signed.
pub record IsServed {X S W PKey EcKey EcdsaSig : Type 0}
    (lib : EllipticCurves X W PKey EcKey EcdsaSig) (client : Service X S) (k : KmsKey PKey)
    : Type 0 where
  pub sig_r_fits :
      (d b : Bytes) (s : S) (g : EcdsaSig)
      → (client.sign k.key_id d (get_sig_alg_spec lib client k) s).0 ≡ ok (some b)
      → lib.from_der b ≡ ok g
      → length (lib.bn_to_vec (lib.sig_r g)) ≤ key_length k.sig_alg
  pub sig_s_fits :
      (d b : Bytes) (s : S) (g : EcdsaSig)
      → (client.sign k.key_id d (get_sig_alg_spec lib client k) s).0 ≡ ok (some b)
      → lib.from_der b ≡ ok g
      → length (lib.bn_to_vec (lib.sig_s g)) ≤ key_length k.sig_alg
  pub der : EcdsaSig → Bytes
  pub to_der-eq : (g : EcdsaSig) → lib.to_der g ≡ ok (der g)
  pub verify-sign :
      (d b : Bytes) (s s' : S) (g : EcdsaSig)
      → (client.sign k.key_id d (get_sig_alg_spec lib client k) s).0 ≡ ok (some b)
      → lib.from_der b ≡ ok g
      → (client.verify k.key_id d (get_sig_alg_spec lib client k) (der g) s').0 ≡ ok true

module _ {X S W PKey EcKey EcdsaSig : Type 0} (lib : EllipticCurves X W PKey EcKey EcdsaSig)
    (client : Service X S) where
  -- The code that `sign` repeats is `merge_ec_signature`.
  pub raw_signature-eq-merge_ec_signature :
      (r s : Bytes) (n : ℕ) → raw_signature lib client r s n ≡ merge_ec_signature r s n
  unfolding raw_signature merge_ec_signature
  raw_signature-eq-merge_ec_signature r s n = refl

  module _ (L : EllipticCurvesLaws lib) (k : KmsKey PKey) where
    abbrev width : ℕ
    width = key_length k.sig_alg

    to_der-append :
        (p q : Bytes) (g : EcdsaSig)
        → length p ≡ width
        → lib.from_private_components (big_endian p) (big_endian q) ≡ ok g
        → to_der lib client k (p ++ q) ≡ map_err (λ e. signature_error (foreign e)) (lib.to_der g)
    unfolding to_der
    to_der-append p q g e f =
        rw (split_at-append width p q e, L.bn_from_slice-eq p, L.bn_from_slice-eq q, f)

    pub sign-eq-ok :
        (d raw : Bytes) (s : S)
        → (sign lib client k d s).0 ≡ ok raw
        → (b : Bytes) × (g : EcdsaSig) × ((client.sign k.key_id d
              (get_sig_alg_spec lib client k)
              s).0
            ≡ ok (some b))
          × (lib.from_der b ≡ ok g)
          × (merge_ec_signature {E = CoseError X}
                (lib.bn_to_vec (lib.sig_r g))
                (lib.bn_to_vec (lib.sig_s g))
                width
              ≡ ok raw)
    unfolding sign
    sign-eq-ok d raw s e =
        bind-elim (call_err aws_sign_error (client.sign k.key_id d (get_sig_alg_spec lib client k)))
          _ s e
          λ reply t e₁.
            bind-elim (lift (ok_or (unsupported_error "No signature returned") reply)) _ _ e₁
              λ b p e₂.
                bind-elim (lift (map_err (λ x. signature_error (foreign x)) (lib.from_der b))) _ _
                  e₂
                  λ g q e₃.
                    let reply_is : reply ≡ some b = ground arith in
                    (
                      b,
                      g,
                      map_err-eq-ok _ _ t ∙ ap ok reply_is,
                      map_err-eq-ok _ _ q,
                      sym (raw_signature-eq-merge_ec_signature _ _ _) ∙ e₃,
                    )

    -- Without a public key, a signature shorter than r makes `verify` panic before any request.
    pub verify_short_kms :
        (d raw : Bytes) (s : S)
        → k.public_key ≡ none
        → length raw < width
        → verify lib client k d raw s ≡ (panic, s)
    unfolding verify_remotely to_der
    verify_short_kms d raw s remote h =
        verify-eq-verify_remotely lib client k d raw s remote ∙ rw (split_at_panic width raw h)

    module _ (u : IsServed lib client k) (remote : k.public_key ≡ none) where
      verify-sign :
          (d raw : Bytes) (s s' : S)
          → (sign lib client k d s).0 ≡ ok raw
          → (verify lib client k d raw s').0 ≡ ok true
      unfolding verify_remotely read_reply
      verify-sign d raw s s' e =
          let (b, g, t, f, m) = sign-eq-ok d raw s e in
          let r = lib.bn_to_vec (lib.sig_r g) in
          let q = lib.bn_to_vec (lib.sig_s g) in
          let fits = u.sig_r_fits d b s g t f in
          let raw_is =
            ok-injective
              (sym m ∙ merge_ec_signature_lem r q width fits (u.sig_s_fits d b s g t f)) in
          let components : lib.from_private_components (big_endian (pad width r))
                (big_endian (pad width q))
              ≡ ok g =
            rw
              (
                big_endian-pad width r,
                big_endian-pad width q,
                L.big_endian-bn_to_vec (lib.sig_r g),
                L.big_endian-bn_to_vec (lib.sig_s g),
              )
              (L.from_private_components-eq g) in
          rw (
            verify-eq-verify_remotely lib client k d raw s' remote,
            raw_is,
            to_der-append (pad width r) (pad width q) g (length-pad width r fits) components,
            u.to_der-eq g,
            u.verify-sign d b s s' g t f,
          )

      -- A KMS key without a public key is a sound signing key where the service signs with numbers that
      -- fit and accepts the DER form of what it signed: the raw form loses nothing.
      pub private_key_kms-IsSound : IsSound (private_key lib client k)
      unfolding get_parameters
      private_key_kms-IsSound = record {
        algorithm = k.sig_alg;
        digest = suggested_message_digest k.sig_alg;
        get_parameters-eq = λ s. refl;
        verify-sign = λ d raw s s' e. verify-sign d raw s s' e;
      }

    -- An answer of the service is passed on.
    pub verify_remotely_answer :
        (d raw b : Bytes) (s : S) (v : Bool)
        → k.public_key ≡ none
        → to_der lib client k raw ≡ ok b
        → (client.verify k.key_id d (get_sig_alg_spec lib client k) b s).0 ≡ ok v
        → verify lib client k d raw s
          ≡ (ok v, (client.verify k.key_id d (get_sig_alg_spec lib client k) b s).1)
    unfolding verify_remotely read_reply
    verify_remotely_answer d raw b s v remote der a =
        rw (verify-eq-verify_remotely lib client k d raw s remote, der, a)

    -- An error of the service is false if it says that the signature is invalid, and otherwise
    -- `AwsVerifyError`.
    pub verify_remotely_error :
        (d raw b : Bytes) (s : S) (x : X)
        → k.public_key ≡ none
        → to_der lib client k raw ≡ ok b
        → (client.verify k.key_id d (get_sig_alg_spec lib client k) b s).0 ≡ err x
        → verify lib client k d raw s ≡ (
          if client.is_invalid_signature x then ok false else err (aws_verify_error x),
          (client.verify k.key_id d (get_sig_alg_spec lib client k) b s).1,
        )
    unfolding verify_remotely read_reply
    verify_remotely_error d raw b s x remote der a =
        rw (verify-eq-verify_remotely lib client k d raw s remote, der, a, read_reply)
