-- ===== src/Error.antt =====
-- src/error.rs: the error type of the crate, what it prints and the cause that it names.
-- `X` stands for the error values of the libraries that the crate calls.
pub mod Decimal
pub mod Reading
use Prim.Native.String.{◌++◌ as ◌<>◌}
use aws_nitro_enclaves_cose.Prelude.{ℕ, String, Option, none, some}
use aws_nitro_enclaves_cose.Error.Decimal.{decimal}

-- `BoxedError` is `Box<dyn Error + Send + Sync>`: an error of a library or of this crate.
mutual
  pub data CoseError (X : Type 0) : Type 0 where
    entropy_error : BoxedError X → CoseError X
    hashing_error : BoxedError X → CoseError X
    signature_error : BoxedError X → CoseError X
    unimplemented_error : CoseError X
    unsupported_error : String → CoseError X
    unverified_signature : CoseError X
    specification_error : String → CoseError X
    serialization_error : X → CoseError X
    tag_error : Option ℕ → CoseError X
    encryption_error : BoxedError X → CoseError X
    tpm_error : X → CoseError X
    aws_sign_error : X → CoseError X
    aws_verify_error : X → CoseError X
    aws_get_public_key_error : X → CoseError X

  pub data BoxedError (X : Type 0) : Type 0 where
    cose : CoseError X → BoxedError X
    foreign : X → BoxedError X

-- A library's errors print themselves and name their own cause.
module _ {X : Type 0} (show : X → String) where
  -- `impl fmt::Display for CoseError`
  unfoldable mutual
    pub display : CoseError X → String
    display (entropy_error e) = "Entropy error: " <> display_boxed e
    display (hashing_error e) = "Hashing failed: " <> display_boxed e
    display (signature_error e) = "Signature error: " <> display_boxed e
    display unimplemented_error = "Not implemented"
    display (unsupported_error e) = "Not supported: " <> e
    display unverified_signature = "Unverified signature"
    display (specification_error e) = "Specification error: " <> e
    display (serialization_error e) = "Serialization error: " <> show e
    display (tag_error (some tag)) = "Tag " <> (decimal tag <> " was not expected")
    display (tag_error none) = "Expected tag is missing"
    display (encryption_error e) = "Encryption error: " <> display_boxed e
    display (tpm_error e) = "TPM error: " <> show e
    display (aws_sign_error e) = "AWS sign error: " <> show e
    display (aws_verify_error e) = "AWS verify error: " <> show e
    display (aws_get_public_key_error e) = "AWS GetPublicKey error: " <> show e

    pub display_boxed : BoxedError X → String
    display_boxed (cose e) = display e
    display_boxed (foreign x) = show x

module _ {X : Type 0} (cause : X → Option (BoxedError X)) where
  -- `impl Error for CoseError`
  unfoldable mutual
    pub source : CoseError X → Option (BoxedError X)
    source (signature_error e) = source_boxed e
    source (serialization_error e) = some (foreign e)
    source _ = none

    pub source_boxed : BoxedError X → Option (BoxedError X)
    source_boxed (cose e) = source e
    source_boxed (foreign x) = cause x
