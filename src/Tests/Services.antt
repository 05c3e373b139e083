-- ===== src/Tests/Services.antt =====
-- A small KMS service and a small TPM, with keys that meet what the theorems ask of them.
use text.Mathlib.Text.{◌==◌ as str_eq}
use aws_nitro_enclaves_cose.Prelude.{
  some-injective, if◌then◌else◌, ap, sym, ◌∙◌, ℕ, ◌+◌, Bytes, String, true, [], ◌∷◌, none, some,
  ◌≡◌, refl, arith, ◌==◌, length,
}
use aws_nitro_enclaves_cose.Outcome.{Outcome, ok, err, panic, ok-injective}
use aws_nitro_enclaves_cose.Crypto.Algorithms.{es256, es384, sha256, key_length}
use aws_nitro_enclaves_cose.Crypto.Signature.Layout.{big_endian, big_endian-pad}
use aws_nitro_enclaves_cose.Crypto.Openssl.Library.{Nid, x9_62_prime256v1}
use aws_nitro_enclaves_cose.Crypto.Kms.{KmsKey}
use aws_nitro_enclaves_cose.Crypto.Kms.Requests.{Service}
use aws_nitro_enclaves_cose.Crypto.Kms.Local as KmsLocal
use aws_nitro_enclaves_cose.Crypto.Kms.Sound as KmsSound
use aws_nitro_enclaves_cose.Crypto.Tpm.Library.{
  Tpm, Constants, TpmSignature, ec_dsa, other_signature,
}
use aws_nitro_enclaves_cose.Crypto.Tpm.{TpmKey}
use aws_nitro_enclaves_cose.Crypto.Tpm.Sound as TpmSound
use aws_nitro_enclaves_cose.Tests.Keys.{curves, from_der, p256_curve, p256_fits, ==_self}

-- A service that signs and verifies in the same way, its state a counter of the requests.
abbrev pub service : Service String ℕ
service = record {
  get_public_key = λ id w. (ok (some (48 ∷ [])), w + 1);
  verify = λ id d spec b w. (
    elim (from_der b) [
      | ok g ↦ if g.0 == length d then ok true else err "KMSInvalidSignatureException"
      | err e ↦ err e
      | panic ↦ panic
    ],
    w + 1,
  );
  sign = λ id d spec w. (ok (some (length d ∷ w ∷ [])), w + 1);
  is_invalid_signature = λ e. str_eq e "KMSInvalidSignatureException";
}

abbrev pub kms_key : KmsKey Nid
kms_key = record { key_id = "key"; sig_alg = es384; public_key = none }

pub kms_key-IsServed : KmsSound.IsServed {W = ℕ} curves service kms_key
unfolding key_length
kms_key-IsServed = record {
  sig_r_fits = λ d b s g t f. omega arith;
  sig_s_fits = λ d b s g t f. omega arith;
  der = λ g. g.0 ∷ g.1 ∷ [];
  to_der-eq = λ g. refl;
  verify-sign = λ d b s s' g t f.
      let b_is : b ≡ length d ∷ (s ∷ []) = sym (some-injective (ok-injective t)) in
      let g_is : g ≡ (length d, s) = ok-injective (sym f ∙ ap from_der b_is) in
      rw (g_is, ==_self (length d));
}

-- The same service with the public key at hand.
abbrev pub local_key : KmsKey Nid
local_key = record { key_id = "key"; sig_alg = es256; public_key = some x9_62_prime256v1 }

pub local_key-IsLocal : KmsLocal.IsLocal {W = ℕ} curves service local_key x9_62_prime256v1
local_key-IsLocal = record {
  key = x9_62_prime256v1;
  curve = x9_62_prime256v1;
  ec_key-eq = refl;
  curve_name-eq = refl;
  curve_algorithm-eq = p256_curve;
  sig_r_fits = λ d b s g t f. p256_fits g.0;
  sig_s_fits = λ d b s g t f. p256_fits g.1;
  ecdsa_verify-sign = λ d b s g t f.
      let b_is : b ≡ length d ∷ (s ∷ []) = sym (some-injective (ok-injective t)) in
      let g_is : g ≡ (length d, s) = ok-injective (sym f ∙ ap from_der b_is) in
      rw (g_is, ==_self (length d));
}

-- A TPM of the same kind.
abbrev pub constants : Constants
constants = record {
  alg_ecdsa = 0x18;
  alg_ecc = 0x23;
  ecc_nist_p256 = 3;
  ecc_nist_p384 = 4;
  ecc_nist_p521 = 5;
  alg_sha256 = 0xb;
  alg_sha384 = 0xc;
  alg_sha512 = 0xd;
}

abbrev accepts : Bytes → TpmSignature → Outcome String (Unit {0})
accepts d (ec_dsa r s) = if big_endian r == length d then ok tt else err "TPM2_RC_SIGNATURE"
accepts d other_signature = err "TPM2_RC_SCHEME"

abbrev pub tpm : Tpm String ℕ ℕ ℕ
tpm = record {
  constants = constants;
  hashing_algorithm = λ n. ok n;
  read_public =
      λ handle w. (ok record { type_ = 0x23; curve_id = 3; scheme = 0x18; hash_alg = 0xb }, w);
  ecc_parameter = λ b. ok b;
  create = λ h r s. ok (ec_dsa r s);
  digest = λ b. ok b;
  verify_signature = λ handle d g w. (accepts d g, w);
  is_signature_failure = λ e. str_eq e "TPM2_RC_SIGNATURE";
  null_scheme = ok tt;
  null_validation = ok tt;
  sign = λ handle d w. (ok (ec_dsa (length d ∷ []) (w ∷ [])), w + 1);
}

abbrev pub tpm_key : TpmKey ℕ ℕ
tpm_key = record { key_handle = 1; parameters = (es256, sha256); hash_alg = 0xb; key_length = 32 }

abbrev ec_dsa_r : TpmSignature → Bytes
ec_dsa_r (ec_dsa r s) = r
ec_dsa_r other_signature = []

abbrev ec_dsa_s : TpmSignature → Bytes
ec_dsa_s (ec_dsa r s) = s
ec_dsa_s other_signature = []

ec_dsa_is :
    (d : Bytes) (k : ℕ) (r s : Bytes)
    → (tpm.sign 1 d k).0 ≡ ok (ec_dsa r s)
    → (length d ∷ [] ≡ r) × (k ∷ [] ≡ s)
ec_dsa_is d k r s e = (ap ec_dsa_r (ok-injective e), ap ec_dsa_s (ok-injective e))

big_endian-one : (n : ℕ) → big_endian (n ∷ []) ≡ n
unfolding big_endian
big_endian-one n = omega arith

pub tpm_key-IsServed : TpmSound.IsServed tpm tpm_key
tpm_key-IsServed = record {
  signature_r_fits = λ d r s k e. rw (← (ec_dsa_is d k r s e).0) (omega arith);
  signature_s_fits = λ d r s k e. rw (← (ec_dsa_is d k r s e).1) (omega arith);
  ecc_parameter-eq = λ b h. refl;
  create-eq = λ r s. refl;
  verify_signature-sign = λ d r s k l e. rw (
    big_endian-pad 32 r,
    ← (ec_dsa_is d k r s e).0,
    big_endian-one (length d),
    ==_self (length d),
  );
}
