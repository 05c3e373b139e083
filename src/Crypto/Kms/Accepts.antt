-- ===== src/Crypto/Kms/Accepts.antt =====
-- Which signatures `verify` of src/crypto/kms.rs accepts and which it refuses, by the service's reply.
use aws_nitro_enclaves_cose.Prelude.{
  ◌≤◌, leb, leb→le, Bool-cases, inl, inr, arith, ap, sym, refl, ◌∙◌, Bytes, Bool, true, false, none,
  ◌≡◌, ◌⊎◌, ◌↔◌, length, take, drop, ◌++◌, take-append-drop, length-take_le,
}
use aws_nitro_enclaves_cose.Outcome.{Outcome, ok, err, panic, map_err, map_err-eq-ok, ◌>>=◌}
use aws_nitro_enclaves_cose.Outcome
use aws_nitro_enclaves_cose.Call.{lift, bind-elim}
use aws_nitro_enclaves_cose.Error.{signature_error, foreign}
use aws_nitro_enclaves_cose.Crypto.Algorithms.{key_length}
use aws_nitro_enclaves_cose.Crypto.Signature.Layout.{big_endian, split_at-append}
use aws_nitro_enclaves_cose.Crypto.Openssl.Library.{EllipticCurves, EllipticCurvesLaws}
use aws_nitro_enclaves_cose.Crypto.OpensslPkey.Accepts.{IsRaw}
use aws_nitro_enclaves_cose.Crypto.Kms.Requests.{Service}
use aws_nitro_enclaves_cose.Crypto.Kms.Panics.{to_der_short}
use aws_nitro_enclaves_cose.Crypto.Kms.Branches.{verify-eq-verify_remotely}
use aws_nitro_enclaves_cose.Crypto.Kms.{
  KmsKey, get_sig_alg_spec, to_der, read_reply, verify_remotely, verify,
}

module _ {X S W PKey EcKey EcdsaSig : Type 0} (lib : EllipticCurves X W PKey EcKey EcdsaSig)
    (client : Service X S) where
  -- The replies of the service that count as true and as false.
  abbrev pub Says : Bool → Outcome X Bool → Type 0
  Says true reply = reply ≡ ok true
  Says false reply =
      (reply ≡ ok false) ⊎ ((x : X) × (reply ≡ err x) × (client.is_invalid_signature x ≡ true))

  read_reply_iff :
      (v : Bool) (reply : Outcome X Bool) → (read_reply lib client reply ≡ ok v) ↔ Says v reply
  unfolding read_reply
  read_reply_iff true (ok b) = ground arith
  read_reply_iff true (err x) = ground arith
  read_reply_iff true panic = ground arith
  read_reply_iff false (ok b) = ground arith
  read_reply_iff false panic = ground arith
  read_reply_iff false (err x) = (
    λ e. inr (x, refl, ground arith),
    λ answer. elim answer [
      | inl e ↦ cc
      | inr (y, e, invalid) ↦ let same : x ≡ y = cc in rw (same, invalid)
    ],
  )

  module _ (L : EllipticCurvesLaws lib) (k : KmsKey PKey) where
    to_der-split :
        (p q : Bytes)
        → length p ≡ key_length k.sig_alg
        → to_der lib client k (p ++ q) ≡ (
            map_err
              (λ e. signature_error (foreign e))
              (lib.from_private_components (big_endian p) (big_endian q))
            >>= λ g. map_err (λ e. signature_error (foreign e)) (lib.to_der g))
    unfolding to_der
    to_der-split p q e =
        rw
          (split_at-append (key_length k.sig_alg) p q e, L.bn_from_slice-eq p, L.bn_from_slice-eq q)

    to_der-cut :
        (s : Bytes)
        → key_length k.sig_alg ≤ length s
        → to_der lib client k s ≡ (
            map_err
              (λ e. signature_error (foreign e))
              (lib.from_private_components
                (big_endian (take (key_length k.sig_alg) s))
                (big_endian (drop (key_length k.sig_alg) s)))
            >>= λ g. map_err (λ e. signature_error (foreign e)) (lib.to_der g))
    to_der-cut s fits =
        let n = key_length k.sig_alg in
        sym (ap (to_der lib client k) (take-append-drop n s))
        ∙ to_der-split (take n s) (drop n s) (length-take_le n s fits)

    -- The DER form that the service gets of a raw signature.
    pub record IsEncoded (s der : Bytes) : Type 0 where
      pub signature : EcdsaSig
      pub raw : IsRaw lib (key_length k.sig_alg) s signature
      pub der_is : lib.to_der signature ≡ ok der

    to_der_of : (s der : Bytes) → IsEncoded s der → to_der lib client k s ≡ ok der
    to_der_of s der i = rw (to_der-cut s i.raw.long_enough, i.raw.components, i.der_is)

    IsEncoded-of_der : (s der : Bytes) → to_der lib client k s ≡ ok der → IsEncoded s der
    IsEncoded-of_der s der e = elim (Bool-cases (leb (key_length k.sig_alg) (length s))) [
      | inl fits ↦
          let long_enough = leb→le (key_length k.sig_alg) (length s) fits in
          Outcome.bind-elim (map_err _ (lib.from_private_components _ _)) _
            (sym (to_der-cut s long_enough) ∙ e)
            λ g made written. record {
              signature = g;
              raw = record { long_enough = long_enough; components = map_err-eq-ok _ _ made };
              der_is = map_err-eq-ok _ _ written;
            }
      | inr short ↦ ground (arith, to_der_short lib client k s (ground arith))
    ]

    -- Without a public key, `verify` gives the answer `v` exactly if the signature is at least as long
    -- as one number, its two parts make an ECDSA signature with a DER form, and the service's reply to
    -- that form says `v`: its own answer, or for false also the exception for an invalid signature.
    pub verify-eq-ok_iff_kms :
        (d s : Bytes) (state : S) (v : Bool)
        → k.public_key ≡ none
        → ((verify lib client k d s state).0 ≡ ok v) ↔ (
            (der : Bytes) × IsEncoded s der
            × Says v (client.verify k.key_id d (get_sig_alg_spec lib client k) der state).0)
    unfolding verify_remotely
    verify-eq-ok_iff_kms d s state v remote =
        rw (verify-eq-verify_remotely lib client k d s state remote) (
          λ e.
              bind-elim (lift (to_der lib client k s)) _ state e
                λ der made said. (der, IsEncoded-of_der s der made, (read_reply_iff v _).0 said),
          λ (der, encoded, says). rw (to_der_of s der encoded) ((read_reply_iff v _).1 says),
        )
