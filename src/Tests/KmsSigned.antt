-- ===== src/Tests/KmsSigned.antt =====
-- The signed message of Tests/Signed, as the KMS key with its public key at hand signs it.
use aws_nitro_enclaves_cose.Prelude.{ℕ, String, [], ◌∷◌, ◌≡◌, refl, ap}
use aws_nitro_enclaves_cose.Outcome.{Outcome, ok}
use aws_nitro_enclaves_cose.Error.{CoseError}
use aws_nitro_enclaves_cose.Crypto.Algorithms.{key_length}
use aws_nitro_enclaves_cose.Crypto.Signature.{copy_from_slice}
use aws_nitro_enclaves_cose.Crypto.Openssl.Library.{x9_62_prime256v1}
use aws_nitro_enclaves_cose.Crypto.Kms
use aws_nitro_enclaves_cose.Crypto.Kms.Local.{soundness}
use aws_nitro_enclaves_cose.Crypto.Traits.{SigningPrivateKey}
use aws_nitro_enclaves_cose.Sign.Message.{CoseSign1}
use aws_nitro_enclaves_cose.Sign.Signing.{new}
use aws_nitro_enclaves_cose.Sign.Signing.Create.{new_lem}
use aws_nitro_enclaves_cose.Tests.Value.{Value}
use aws_nitro_enclaves_cose.Tests.Format.{format}
use aws_nitro_enclaves_cose.Tests.Keys.{curves, curves-EllipticCurvesLaws, sum_hash}
use aws_nitro_enclaves_cose.Tests.Services.{service, local_key, local_key-IsLocal}
use aws_nitro_enclaves_cose.Tests.Signed.{
  payload, protected_bytes, structure, signature, message, protected_written, structure_written,
}

abbrev pub key : SigningPrivateKey String ℕ
key = Kms.private_key {W = ℕ} curves service local_key

kms_signed : key.sign (21 ∷ []) 0 ≡ (ok signature, 1)
unfolding Kms.sign Kms.raw_signature copy_from_slice key_length
kms_signed = refl

new-message : new format sum_hash key payload [] 0 ≡ (ok message, 1)
new-message =
    new_lem format sum_hash key
      (soundness curves service curves-EllipticCurvesLaws local_key x9_62_prime256v1
        local_key-IsLocal refl)
      payload [] 0 1 protected_bytes structure (21 ∷ []) signature protected_written
      structure_written refl kms_signed

pub message_signed : (new format sum_hash key payload [] 0).0 ≡ ok message
message_signed = ap (λ (p : Outcome (CoseError String) (CoseSign1 Value) × ℕ). p.0) new-message
