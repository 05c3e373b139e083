-- ===== src/Crypto/Algorithms.antt =====
-- The algorithm enums of src/crypto/mod.rs and src/encrypt.rs, with their conversions.
pub mod Laws
use Prim.Native.String.{◌++◌ as ◌<>◌}
use text.Mathlib.Text.{◌==◌ as str_eq}
use aws_nitro_enclaves_cose.Prelude.{
  ℕ, ℤ, pos, negsuc, eqb, Bytes, String, Option, none, some, Bool, length, ◌==◌, if◌then◌else◌,
}
use aws_nitro_enclaves_cose.Outcome.{Outcome, ok, err}
use aws_nitro_enclaves_cose.Error.{CoseError, unsupported_error}
use aws_nitro_enclaves_cose.Serde.{Cbor}
use aws_nitro_enclaves_cose.HeaderMap
use aws_nitro_enclaves_cose.HeaderMap.{HeaderMap}

-- `enum MessageDigest`
pub data MessageDigest : Type 0 where
  sha256 sha384 sha512 : MessageDigest

-- `enum SignatureAlgorithm`
pub data SignatureAlgorithm : Type 0 where
  es256 es384 es512 : SignatureAlgorithm

-- `sig_alg as i8`: the discriminants -7, -35 and -36.
unfoldable pub discriminant : SignatureAlgorithm → ℤ
discriminant es256 = negsuc 6
discriminant es384 = negsuc 34
discriminant es512 = negsuc 35

unfoldable pub key_length : SignatureAlgorithm → ℕ
key_length es256 = 32
key_length es384 = 48
key_length es512 = 66

unfoldable pub suggested_message_digest : SignatureAlgorithm → MessageDigest
suggested_message_digest es256 = sha256
suggested_message_digest es384 = sha384
suggested_message_digest es512 = sha512

-- `impl FromStr for SignatureAlgorithm`
unfoldable pub from_str : {X : Type 0} → String → Outcome (CoseError X) SignatureAlgorithm
from_str s =
    if str_eq s "ES256"
    then ok es256
    else if str_eq s "ES384"
    then ok es384
    else if str_eq s "ES512"
    then ok es512
    else err (unsupported_error ("Algorithm '" <> (s <> "' is not supported")))

-- `impl Display for SignatureAlgorithm`
unfoldable pub display : SignatureAlgorithm → String
display es256 = "ES256"
display es384 = "ES384"
display es512 = "ES512"

-- `impl From<SignatureAlgorithm> for HeaderMap`
unfoldable pub to_header_map : {X V : Type 0} → Cbor X V → SignatureAlgorithm → HeaderMap V
unfolding HeaderMap.insert discriminant
to_header_map c a =
    (HeaderMap.insert c (c.of_integer (pos 1)) (c.of_integer (discriminant a)) HeaderMap.new).1

-- `enum CoseAlgorithm` of src/encrypt.rs
pub data CoseAlgorithm : Type 0 where
  aes_gcm_96_128_128 aes_gcm_96_128_192 aes_gcm_96_128_256 : CoseAlgorithm

-- `CoseAlgorithm::value`
unfoldable pub value : CoseAlgorithm → ℕ
value aes_gcm_96_128_128 = 1
value aes_gcm_96_128_192 = 2
value aes_gcm_96_128_256 = 3

-- `CoseAlgorithm::from_value`, of an i8
unfoldable pub from_value : ℤ → Option CoseAlgorithm
from_value v =
    if eqb v (pos 1)
    then some aes_gcm_96_128_128
    else if eqb v (pos 2)
    then some aes_gcm_96_128_192
    else if eqb v (pos 3)
    then some aes_gcm_96_128_256
    else none

unfoldable pub tag_size : CoseAlgorithm → ℕ
tag_size aes_gcm_96_128_128 = 16
tag_size aes_gcm_96_128_192 = 16
tag_size aes_gcm_96_128_256 = 16

unfoldable pub iv_len : CoseAlgorithm → Option ℕ
iv_len aes_gcm_96_128_128 = some 12
iv_len aes_gcm_96_128_192 = some 12
iv_len aes_gcm_96_128_256 = some 12

-- `enum CipherConfiguration`
pub data CipherConfiguration : Type 0 where
  gcm : CipherConfiguration

-- `CipherConfiguration::cose_alg`
unfoldable pub cose_alg : CipherConfiguration → Bytes → Option CoseAlgorithm
cose_alg gcm key =
    if length key == 16
    then some aes_gcm_96_128_128
    else if length key == 24
    then some aes_gcm_96_128_192
    else if length key == 32
    then some aes_gcm_96_128_256
    else none

-- `enum EncryptionAlgorithm`
pub data EncryptionAlgorithm : Type 0 where
  aes128_gcm aes192_gcm aes256_gcm : EncryptionAlgorithm

-- `impl From<CoseAlgorithm> for EncryptionAlgorithm`
unfoldable pub to_encryption_algorithm : CoseAlgorithm → EncryptionAlgorithm
to_encryption_algorithm aes_gcm_96_128_128 = aes128_gcm
to_encryption_algorithm aes_gcm_96_128_192 = aes192_gcm
to_encryption_algorithm aes_gcm_96_128_256 = aes256_gcm
