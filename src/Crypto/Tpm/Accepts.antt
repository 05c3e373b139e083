-- ===== src/Crypto/Tpm/Accepts.antt =====
-- Which signatures `verify` of src/crypto/tpm.rs accepts and which it refuses, by the TPM's answer.
use aws_nitro_enclaves_cose.Prelude.{
  ◌≤◌, leb, leb→le, Bool-cases, inl, inr, arith, ap, sym, refl, ◌∙◌, Bytes, Bool, true, false, ◌≡◌,
  ◌↔◌, length, take, drop, ◌++◌, take-append-drop, length-take_le,
}
use aws_nitro_enclaves_cose.Outcome.{Outcome, ok, err, panic, map_err, map_err-eq-ok, ◌>>=◌}
use aws_nitro_enclaves_cose.Outcome
use aws_nitro_enclaves_cose.Call.{lift, bind-elim}
use aws_nitro_enclaves_cose.Error.{CoseError, unsupported_error}
use aws_nitro_enclaves_cose.Crypto.Signature.Layout.{split_at-append}
use aws_nitro_enclaves_cose.Crypto.Tpm.Library.{TpmSignature, Tpm}
use aws_nitro_enclaves_cose.Crypto.Tpm.Panics.{to_tpm_signature_short}
use aws_nitro_enclaves_cose.Crypto.Tpm.{TpmKey, to_tpm_signature, read_answer, verify}

module _ {X C Handle HashAlg : Type 0} (tpm : Tpm X C Handle HashAlg) where
  -- The answers of the TPM that count as true and as false.
  abbrev pub Says : Bool → Outcome X (Unit {0}) → Type 0
  Says true answer = answer ≡ ok tt
  Says false answer = (x : X) × (answer ≡ err x) × (tpm.is_signature_failure x ≡ true)

  read_answer_iff :
      (v : Bool) (answer : Outcome X (Unit {0})) → (read_answer tpm answer ≡ ok v) ↔ Says v answer
  unfolding read_answer
  read_answer_iff true (ok u) = ground arith
  read_answer_iff true (err x) = ground arith
  read_answer_iff true panic = ground arith
  read_answer_iff false (ok u) = (λ e. cc, λ (x, e, f). cc)
  read_answer_iff false panic = (λ e. cc, λ (x, e, f). cc)
  read_answer_iff false (err x) =
      (λ e. (x, refl, ground arith), λ (y, e, f). let same : x ≡ y = cc in rw (same, f))

  module _ (key : TpmKey Handle HashAlg) where
    -- The TPM's form of a raw signature: its two parts are the parameters.
    pub record IsComposed (s : Bytes) (g : TpmSignature) : Type 0 where
      pub long_enough : key.key_length ≤ length s
      pub first : Bytes
      pub first_is : tpm.ecc_parameter (take key.key_length s) ≡ ok first
      pub second : Bytes
      pub second_is : tpm.ecc_parameter (drop key.key_length s) ≡ ok second
      pub created : tpm.create key.hash_alg first second ≡ ok g

    -- The rest of `to_tpm_signature`, behind the cut.
    abbrev compose : Bytes → Bytes → Outcome (CoseError X) TpmSignature
    compose p q =
        map_err (λ e. unsupported_error "Unable to convert R signature component")
          (tpm.ecc_parameter p)
        >>= λ r.
            map_err (λ e. unsupported_error "Unable to convert S signature component")
              (tpm.ecc_parameter q)
            >>= λ t.
                map_err (λ e. unsupported_error "Unable to create ECC signature")
                  (tpm.create key.hash_alg r t)

    to_tpm_signature-append :
        (p q : Bytes) → length p ≡ key.key_length → to_tpm_signature tpm key (p ++ q) ≡ compose p q
    unfolding to_tpm_signature
    to_tpm_signature-append p q e = rw (split_at-append key.key_length p q e)

    to_tpm_signature-cut :
        (s : Bytes)
        → key.key_length ≤ length s
        → to_tpm_signature tpm key s ≡ compose (take key.key_length s) (drop key.key_length s)
    to_tpm_signature-cut s fits =
        let n = key.key_length in
        sym (ap (to_tpm_signature tpm key) (take-append-drop n s))
        ∙ to_tpm_signature-append (take n s) (drop n s) (length-take_le n s fits)

    to_tpm_signature_of :
        (s : Bytes) (g : TpmSignature) → IsComposed s g → to_tpm_signature tpm key s ≡ ok g
    to_tpm_signature_of s g i =
        rw (to_tpm_signature-cut s i.long_enough, i.first_is, i.second_is, i.created)

    IsComposed-of_signature :
        (s : Bytes) (g : TpmSignature) → to_tpm_signature tpm key s ≡ ok g → IsComposed s g
    IsComposed-of_signature s g e = elim (Bool-cases (leb key.key_length (length s))) [
      | inl fits ↦
          let long_enough = leb→le key.key_length (length s) fits in
          Outcome.bind-elim (map_err _ (tpm.ecc_parameter (take key.key_length s))) _
            (sym (to_tpm_signature-cut s long_enough) ∙ e)
            λ r r_is e₁.
              Outcome.bind-elim (map_err _ (tpm.ecc_parameter (drop key.key_length s))) _ e₁
                λ t t_is e₂. record {
                  long_enough = long_enough;
                  first = r;
                  first_is = map_err-eq-ok _ _ r_is;
                  second = t;
                  second_is = map_err-eq-ok _ _ t_is;
                  created = map_err-eq-ok _ _ e₂;
                }
      | inr short ↦ ground (arith, to_tpm_signature_short tpm key s (ground arith))
    ]

    -- `verify` gives the answer `v` exactly if the signature is at least as long as the key's length,
    -- its two parts make a signature of the TPM, the text is a digest, and the TPM's answer to them
    -- says `v`: no error for true, and for false the error for a wrong signature.
    pub verify-eq-ok_iff_tpm :
        (text s : Bytes) (context : C) (v : Bool)
        → ((verify tpm key text s context).0 ≡ ok v) ↔ (
            (g : TpmSignature) × (digest : Bytes) × IsComposed s g
            × (tpm.digest text ≡ ok digest)
            × Says v (tpm.verify_signature key.key_handle digest g context).0)
    unfolding verify
    verify-eq-ok_iff_tpm text s context v = (
      λ e. bind-elim (lift (to_tpm_signature tpm key s)) _ context e λ g made e₁.
          bind-elim
            (lift (
              map_err (λ x. unsupported_error "Invalid digest passed to verify") (tpm.digest text)))
            _ context e₁
            λ digest digested said. (
              g,
              digest,
              IsComposed-of_signature s g made,
              map_err-eq-ok _ _ digested,
              (read_answer_iff v _).0 said,
            ),
      λ (g, digest, composed, digested, says).
          rw (to_tpm_signature_of s g composed, digested) ((read_answer_iff v _).1 says),
    )
