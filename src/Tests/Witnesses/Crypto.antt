-- ===== src/Tests/Witnesses/Crypto.antt =====
-- The theorems on src/crypto/ at small keys.
use aws_nitro_enclaves_cose.Prelude.{
  none, ℕ, ◌≤◌, ◌++◌, ◌<◌, ◌↔◌, String, [], ◌∷◌, ◌++◌, ◌≡◌, refl, arith, length, replicate, zero,
}
use aws_nitro_enclaves_cose.Outcome.{ok}
use aws_nitro_enclaves_cose.Crypto.Algorithms.{es256, sha256, key_length}
use aws_nitro_enclaves_cose.Crypto.Traits.Contracts.{IsSound, IsInverse}
use aws_nitro_enclaves_cose.Crypto.Signature.{merge_ec_signature}
use aws_nitro_enclaves_cose.Crypto.Signature.Layout.{pad, merge_ec_signature_iff}
use aws_nitro_enclaves_cose.Crypto.Openssl.Library.{x9_62_prime256v1}
use aws_nitro_enclaves_cose.Crypto.Openssl.Provider
use aws_nitro_enclaves_cose.Crypto.Openssl.Sound.{openssl-IsInverse}
use aws_nitro_enclaves_cose.Crypto.OpensslPkey
use aws_nitro_enclaves_cose.Crypto.OpensslPkey.Sound.{private_key_openssl-IsSound}
use aws_nitro_enclaves_cose.Crypto.Kms
use aws_nitro_enclaves_cose.Crypto.Kms.{KmsKey}
use aws_nitro_enclaves_cose.Crypto.Kms.Sound.{private_key_kms-IsSound}
use aws_nitro_enclaves_cose.Crypto.Kms.Created.{IsPaired, new_with_public_key_iff}
use aws_nitro_enclaves_cose.Crypto.Tpm as TpmKeys
use aws_nitro_enclaves_cose.Crypto.Tpm.Library.{TpmtPublic}
use aws_nitro_enclaves_cose.Crypto.Tpm.Supported.{IsSupported, public_to_parameters_iff}
use aws_nitro_enclaves_cose.Crypto.Tpm.Sound.{private_key_tpm-IsSound}
use aws_nitro_enclaves_cose.Tests.Keys.{
  curves, curves-EllipticCurvesLaws, p256-IsUsable, p256_key, symmetric, symmetric-IsAead,
}
use aws_nitro_enclaves_cose.Tests.Services.{
  service, kms_key, kms_key-IsServed, tpm, local_key, tpm_key, tpm_key-IsServed,
}

private_key_openssl-IsSound_example : IsSound p256_key
private_key_openssl-IsSound_example =
    private_key_openssl-IsSound curves curves-EllipticCurvesLaws x9_62_prime256v1 p256-IsUsable

short : 3 < key_length es256
unfolding key_length
short = omega arith

wide : length (replicate 32 zero) ≡ key_length es256
unfolding key_length
wide = refl

private_key_kms-IsSound_example : IsSound (Kms.private_key {W = ℕ} curves service kms_key)
private_key_kms-IsSound_example =
    private_key_kms-IsSound curves service curves-EllipticCurvesLaws kms_key kms_key-IsServed refl

paired_made : Kms.new_with_public_key {W = ℕ} curves service "key" none 0 ≡ (ok local_key, 1)
unfolding Kms.new_with_public_key Kms.obtain_public_key OpensslPkey.ec_curve_to_parameters
    OpensslPkey.curve_algorithm
paired_made = refl

new_with_public_key_iff_example :
    (Kms.new_with_public_key {W = ℕ} curves service "key" none 0 ≡ (ok local_key, 1))
    ↔ IsPaired {W = ℕ} curves service "key" none 0 local_key 1
new_with_public_key_iff_example = new_with_public_key_iff curves service "key" none 0 local_key 1

private_key_tpm-IsSound_example : IsSound (TpmKeys.private_key tpm tpm_key)
private_key_tpm-IsSound_example = private_key_tpm-IsSound tpm tpm_key tpm_key-IsServed

abbrev public : TpmtPublic
public = record { type_ = 0x23; curve_id = 3; scheme = 0x18; hash_alg = 0xb }

public_supported : TpmKeys.public_to_parameters tpm public ≡ ok ((es256, sha256), 0xb, 32)
unfolding TpmKeys.public_to_parameters TpmKeys.check_type TpmKeys.curve_parameters
    TpmKeys.check_scheme TpmKeys.digest_of
public_supported = refl

public_to_parameters_iff_example :
    (TpmKeys.public_to_parameters tpm public ≡ ok ((es256, sha256), 0xb, 32))
    ↔ IsSupported tpm public es256 sha256 0xb 32
public_to_parameters_iff_example = public_to_parameters_iff tpm public es256 sha256 0xb 32

openssl-IsInverse_example :
    IsInverse (Provider.encryption symmetric) (Provider.decryption symmetric)
openssl-IsInverse_example = openssl-IsInverse symmetric symmetric-IsAead

merge_ec_signature_iff_example :
    (merge_ec_signature {E = String} (1 ∷ 2 ∷ []) (3 ∷ []) 4
      ≡ ok (0 ∷ 0 ∷ 1 ∷ 2 ∷ 0 ∷ 0 ∷ 0 ∷ 3 ∷ []))
    ↔ ((2 ≤ 4)
        × (1 ≤ 4)
        × (0 ∷ 0 ∷ 1 ∷ 2 ∷ 0 ∷ 0 ∷ 0 ∷ 3 ∷ [] ≡ pad 4 (1 ∷ 2 ∷ []) ++ pad 4 (3 ∷ [])))
merge_ec_signature_iff_example =
    merge_ec_signature_iff (1 ∷ 2 ∷ []) (3 ∷ []) 4 (0 ∷ 0 ∷ 1 ∷ 2 ∷ 0 ∷ 0 ∷ 0 ∷ 3 ∷ [])
