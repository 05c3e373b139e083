-- ===== src/Crypto/Tpm/Panics.antt =====
-- When `verify` of src/crypto/tpm.rs panics.
use aws_nitro_enclaves_cose.Prelude.{◌<◌, Bytes, ◌≡◌, ◌↔◌, ◌⊎◌, length, Bool-cases, inl, inr}
use aws_nitro_enclaves_cose.Outcome.{Outcome, panic}
use aws_nitro_enclaves_cose.Outcome.Ensures.{
  resume-elim, Total, returns, throws, Total-bind, Total-map_err,
}
use aws_nitro_enclaves_cose.Error.{unsupported_error}
use aws_nitro_enclaves_cose.Crypto.Signature.Panics.{panic_iff_of, split_at-Total, split_at_short}
use aws_nitro_enclaves_cose.Crypto.Tpm.Library.{TpmSignature, Tpm}
use aws_nitro_enclaves_cose.Crypto.Tpm.{TpmKey, to_tpm_signature, read_answer, verify}

module _ {X C Handle HashAlg : Type 0} (tpm : Tpm X C Handle HashAlg) where
  -- The conversions of the library and the TPM's answer may be errors, but no panics.
  pub record IsTotal : Type 0 where
    pub ecc_parameter-Total : (b : Bytes) → Total (tpm.ecc_parameter b)
    pub create-Total : (h : HashAlg) (r s : Bytes) → Total (tpm.create h r s)
    pub digest-Total : (b : Bytes) → Total (tpm.digest b)
    pub verify_signature-Total :
        (handle : Handle) (d : Bytes) (g : TpmSignature) (context : C)
        → Total (tpm.verify_signature handle d g context).0

  pub to_tpm_signature_short :
      (key : TpmKey Handle HashAlg) (s : Bytes)
      → length s < key.key_length
      → to_tpm_signature tpm key s ≡ panic
  unfolding to_tpm_signature
  to_tpm_signature_short key s short = split_at_short key.key_length s _ short

  module _ (T : IsTotal) (key : TpmKey Handle HashAlg) where
    to_tpm_signature-Total :
        (s : Bytes) → (length s < key.key_length) ⊎ Total (to_tpm_signature tpm key s)
    unfolding to_tpm_signature
    to_tpm_signature-Total s = split_at-Total key.key_length s _ λ p q.
        Total-bind (Total-map_err _ (T.ecc_parameter-Total p)) λ r.
          Total-bind (Total-map_err _ (T.ecc_parameter-Total q))
            λ t. Total-map_err _ (T.create-Total key.hash_alg r t)

    read_answer-Total : {a : Outcome X (Unit {0})} → Total a → Total (read_answer tpm a)
    unfolding read_answer
    read_answer-Total (returns p) = returns tt
    read_answer-Total (throws {e} q) = elim (Bool-cases (tpm.is_signature_failure e)) [
      | inl failure ↦ rw failure (returns tt)
      | inr other_error ↦ rw other_error (throws tt)
    ]

    verify-Total :
        (d s : Bytes) (context : C)
        → (length s < key.key_length) ⊎ Total (verify tpm key d s context).0
    unfolding verify
    verify-Total d s context = elim (to_tpm_signature-Total s) [
      | inl short ↦ inl short
      | inr total ↦ inr (
          resume-elim (λ z. Total z.0) _ context total
            (λ g e p.
              resume-elim (λ z. Total z.0) _ context
                (Total-map_err (λ x. unsupported_error "Invalid digest passed to verify")
                  (T.digest-Total d))
                (λ b f q. read_answer-Total (T.verify_signature-Total key.key_handle b g context))
                (λ x f q. throws tt))
            (λ x e p. throws tt))
    ]

    -- A TPM key panics on a signature exactly if it is shorter than the key's length, and then before
    -- the TPM is asked. The library and the TPM do not panic.
    pub verify_panic_iff_tpm :
        (d s : Bytes) (context : C)
        → ((verify tpm key d s context).0 ≡ panic) ↔ (length s < key.key_length)
    unfolding verify
    verify_panic_iff_tpm d s context =
        panic_iff_of (verify-Total d s context) λ short. rw (to_tpm_signature_short key s short)
