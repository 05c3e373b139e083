-- ===== src/Crypto/Lengths.antt =====
-- How long the signatures of the three kinds of keys are.
use aws_nitro_enclaves_cose.Prelude.{ℕ, ◌*◌, Bytes, ◌≡◌, arith, length, length-append}
use aws_nitro_enclaves_cose.Outcome.{ok}
use aws_nitro_enclaves_cose.Error.{CoseError}
use aws_nitro_enclaves_cose.Crypto.Algorithms.{key_length}
use aws_nitro_enclaves_cose.Crypto.Signature.{merge_ec_signature}
use aws_nitro_enclaves_cose.Crypto.Signature.Layout.{pad, length-pad, merge_ec_signature_iff}
use aws_nitro_enclaves_cose.Crypto.Openssl.Library.{EllipticCurves, EllipticCurvesLaws}
use aws_nitro_enclaves_cose.Crypto.OpensslPkey
use aws_nitro_enclaves_cose.Crypto.OpensslPkey.Sound as OpensslSound
use aws_nitro_enclaves_cose.Crypto.Kms
use aws_nitro_enclaves_cose.Crypto.Kms.{KmsKey}
use aws_nitro_enclaves_cose.Crypto.Kms.Requests.{Service}
use aws_nitro_enclaves_cose.Crypto.Kms.Sound as KmsSound
use aws_nitro_enclaves_cose.Crypto.Tpm as TpmKeys
use aws_nitro_enclaves_cose.Crypto.Tpm.{TpmKey}
use aws_nitro_enclaves_cose.Crypto.Tpm.Library.{Tpm}
use aws_nitro_enclaves_cose.Crypto.Tpm.Sound as TpmSound

length-merge_ec_signature :
    {E : Type 0} (r s : Bytes) (n : ℕ) (b : Bytes)
    → merge_ec_signature {E = E} r s n ≡ ok b
    → length b ≡ 2 * n
length-merge_ec_signature {E} r s n b e =
    let (hr, hs, b_is) = (merge_ec_signature_iff {E = E} r s n b).0 e in
    rw b_is (omega (arith, length-append (pad n r) (pad n s), length-pad n r hr, length-pad n s hs))

-- The signature of an OpenSSL key on one of the three curves is twice as long as a number of the
-- curve.
pub length-sign_openssl :
    {X W PKey EcKey EcdsaSig : Type 0} (lib : EllipticCurves X W PKey EcKey EcdsaSig)
    (L : EllipticCurvesLaws lib) (pkey : PKey) (u : OpensslSound.IsUsable lib pkey) (d s : Bytes)
    (w : W)
    → (OpensslPkey.sign lib pkey d w).0 ≡ ok s
    → length s ≡ 2 * key_length u.algorithm
length-sign_openssl {X} lib L pkey u d s w e =
    let (g, t, m) = OpensslSound.sign-eq-ok lib L pkey u d s w e in
    length-merge_ec_signature {E = CoseError X} (lib.bn_to_vec (lib.sig_r g))
      (lib.bn_to_vec (lib.sig_s g)) (key_length u.algorithm) s m

-- So is that of a KMS key, with a public key or without.
pub length-sign_kms :
    {X S W PKey EcKey EcdsaSig : Type 0} (lib : EllipticCurves X W PKey EcKey EcdsaSig)
    (client : Service X S) (L : EllipticCurvesLaws lib) (k : KmsKey PKey) (d s : Bytes) (state : S)
    → (Kms.sign lib client k d state).0 ≡ ok s
    → length s ≡ 2 * key_length k.sig_alg
length-sign_kms {X} lib client L k d s state e =
    let (b, g, t, f, m) = KmsSound.sign-eq-ok lib client L k d s state e in
    length-merge_ec_signature {E = CoseError X} (lib.bn_to_vec (lib.sig_r g))
      (lib.bn_to_vec (lib.sig_s g)) (key_length k.sig_alg) s m

-- That of a TPM key is twice as long as the key's length.
pub length-sign_tpm :
    {X C Handle HashAlg : Type 0} (tpm : Tpm X C Handle HashAlg) (key : TpmKey Handle HashAlg)
    (d s : Bytes) (context : C)
    → (TpmKeys.sign tpm key d context).0 ≡ ok s
    → length s ≡ 2 * key.key_length
length-sign_tpm {X} tpm key d s context e =
    let (digest, r, t, digest_is, signed, m) = TpmSound.sign-eq-ok tpm key d s context e in
    length-merge_ec_signature {E = CoseError X} r t key.key_length s m
