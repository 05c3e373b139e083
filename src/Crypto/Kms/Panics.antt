-- ===== src/Crypto/Kms/Panics.antt =====
-- When `verify` of src/crypto/kms.rs panics.
use aws_nitro_enclaves_cose.Prelude.{
  ◌<◌, Bytes, Bool, none, ◌≡◌, ◌↔◌, ◌⊎◌, length, Bool-cases, inl, inr,
}
use aws_nitro_enclaves_cose.Outcome.{Outcome, panic}
use aws_nitro_enclaves_cose.Outcome.Ensures.{
  Total, returns, throws, resume-elim, Total-bind, Total-map_err,
}
use aws_nitro_enclaves_cose.Crypto.Algorithms.{key_length}
use aws_nitro_enclaves_cose.Crypto.Signature.Panics.{panic_iff_of, split_at-Total, split_at_short}
use aws_nitro_enclaves_cose.Crypto.Openssl.Library.{EllipticCurves}
use aws_nitro_enclaves_cose.Crypto.OpensslPkey.Panics.{IsTotal}
use aws_nitro_enclaves_cose.Crypto.Kms.Branches.{verify-eq-verify_remotely}
use aws_nitro_enclaves_cose.Crypto.Kms.Requests.{SigningAlgorithmSpec, Service}
use aws_nitro_enclaves_cose.Crypto.Kms.{
  KmsKey, get_sig_alg_spec, to_der, read_reply, verify_remotely, verify,
}

module _ {X S W PKey EcKey EcdsaSig : Type 0} (lib : EllipticCurves X W PKey EcKey EcdsaSig)
    (client : Service X S) (k : KmsKey PKey) where
  pub to_der_short : (s : Bytes) → length s < key_length k.sig_alg → to_der lib client k s ≡ panic
  unfolding to_der
  to_der_short s short = split_at_short (key_length k.sig_alg) s _ short

module _ {X S W PKey EcKey EcdsaSig : Type 0} (lib : EllipticCurves X W PKey EcKey EcdsaSig)
    (T : IsTotal lib) (client : Service X S) (k : KmsKey PKey) where
  to_der-Total : (s : Bytes) → (length s < key_length k.sig_alg) ⊎ Total (to_der lib client k s)
  unfolding to_der
  to_der-Total s = split_at-Total (key_length k.sig_alg) s _ λ p q.
      Total-bind (Total-map_err _ (T.bn_from_slice-Total p)) λ r.
        Total-bind (Total-map_err _ (T.bn_from_slice-Total q)) λ t.
          Total-bind (Total-map_err _ (T.from_private_components-Total r t))
            λ g. Total-map_err _ (T.to_der-Total g)

  read_reply-Total : {a : Outcome X Bool} → Total a → Total (read_reply lib client a)
  unfolding read_reply
  read_reply-Total (returns p) = returns tt
  read_reply-Total (throws {e} q) = elim (Bool-cases (client.is_invalid_signature e)) [
    | inl invalid ↦ rw invalid (returns tt)
    | inr other_error ↦ rw other_error (throws tt)
  ]

  module _
      (replies : (id : _) (d sig : Bytes) (spec : SigningAlgorithmSpec) (state : S)
        → Total (client.verify id d spec sig state).0) where
    verify_remotely-Total :
        (d s : Bytes) (state : S)
        → (length s < key_length k.sig_alg) ⊎ Total (verify_remotely lib client k d s state).0
    unfolding verify_remotely
    verify_remotely-Total d s state = elim (to_der-Total s) [
      | inl short ↦ inl short
      | inr total ↦ inr (
          resume-elim (λ z. Total z.0) _ state total
            (λ der e p.
              read_reply-Total (replies k.key_id d der (get_sig_alg_spec lib client k) state))
            (λ x e p. throws tt))
    ]

    -- A KMS key without a public key panics on a signature exactly if it is shorter than one number of
    -- its algorithm, and then before the service is asked. The library and the service do not panic.
    pub verify_panic_iff_kms :
        (d s : Bytes) (state : S)
        → k.public_key ≡ none
        → ((verify lib client k d s state).0 ≡ panic) ↔ (length s < key_length k.sig_alg)
    unfolding verify_remotely
    verify_panic_iff_kms d s state remote =
        rw (verify-eq-verify_remotely lib client k d s state remote) (
          panic_iff_of (verify_remotely-Total d s state)
            λ short. rw (to_der_short lib client k s short))
