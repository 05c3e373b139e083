-- ===== src/Crypto/Kms/Branches.antt =====
-- The two branches of `verify` of src/crypto/kms.rs: by the public key at hand, or by the service.
use aws_nitro_enclaves_cose.Prelude.{Bytes, Option, none, some, is_some, if◌then◌else◌, ◌≡◌}
use aws_nitro_enclaves_cose.Outcome.{Outcome, unwrap, ◌>>=◌}
use aws_nitro_enclaves_cose.Call.{Call, lift}
use aws_nitro_enclaves_cose.Crypto.Openssl.Library.{EllipticCurves}
use aws_nitro_enclaves_cose.Crypto.OpensslPkey
use aws_nitro_enclaves_cose.Crypto.Kms.Requests.{Service}
use aws_nitro_enclaves_cose.Crypto.Kms.{KmsKey, verify_with_public_key, verify_remotely, verify}

module _ {E K A B : Type 0} (o : Option A) (f : A → Outcome E B) (other_branch : Call E K B)
    (k : K) where
  with_some :
      (a : A)
      → o ≡ some a
      → (if is_some o then lift (unwrap o >>= f) else other_branch) k ≡ (f a, k)
  with_some a e = rw e

  with_none :
      o ≡ none → (if is_some o then lift (unwrap o >>= f) else other_branch) k ≡ other_branch k
  with_none e = rw e

module _ {X S W PKey EcKey EcdsaSig : Type 0} (lib : EllipticCurves X W PKey EcKey EcdsaSig)
    (client : Service X S) (k : KmsKey PKey) (d raw : Bytes) (state : S) where
  pub verify_locally :
      (public : PKey)
      → k.public_key ≡ some public
      → verify lib client k d raw state ≡ (OpensslPkey.verify lib public d raw, state)
  unfolding verify verify_with_public_key
  verify_locally public at_hand =
      with_some k.public_key (λ key. OpensslPkey.verify lib key d raw)
        (verify_remotely lib client k d raw) state public at_hand

  pub verify-eq-verify_remotely :
      k.public_key ≡ none
      → verify lib client k d raw state ≡ verify_remotely lib client k d raw state
  unfolding verify verify_with_public_key
  verify-eq-verify_remotely remote =
      with_none k.public_key (λ key. OpensslPkey.verify lib key d raw)
        (verify_remotely lib client k d raw) state remote
