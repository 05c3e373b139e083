-- ===== src/Crypto/Openssl/Library.antt =====
-- The openssl crate, as far as src/crypto calls it. What it computes is a parameter.
use aws_nitro_enclaves_cose.Prelude.{ℕ, Bytes, String, Option, Bool, ◌≡◌}
use aws_nitro_enclaves_cose.Outcome.{Outcome, ok}
use aws_nitro_enclaves_cose.Call.{Call}
use aws_nitro_enclaves_cose.Crypto.Signature.Layout.{big_endian}

-- `openssl::nid::Nid`: the curves that the crate names, and any other.
pub data Nid : Type 0 where
  x9_62_prime256v1 secp384r1 secp521r1 : Nid
  other_nid : ℕ → Nid

-- Random bytes, AEAD ciphers and hashes. `W` is the state of the random generator, `Cipher` and
-- `Digest` stand for the crate's types of these names.
pub record Symmetric (X W Cipher Digest : Type 0) : Type 0 where
  pub rand_bytes : Bytes → Call X W Bytes
  pub aes_128_gcm : Cipher
  pub aes_192_gcm : Cipher
  pub aes_256_gcm : Cipher
  pub sha256 : Digest
  pub sha384 : Digest
  pub sha512 : Digest
  pub encrypt_aead :
      Cipher → Bytes → Option Bytes → Bytes → Bytes → Bytes → Outcome X (Bytes × Bytes)
  pub decrypt_aead : Cipher → Bytes → Option Bytes → Bytes → Bytes → Bytes → Outcome X Bytes
  pub hash : Digest → Bytes → Outcome X Bytes

-- Elliptic curve keys and signatures. A `BigNum` is the number that it holds.
pub record EllipticCurves (X W PKey EcKey EcdsaSig : Type 0) : Type 0 where
  pub ec_key : PKey → Outcome X EcKey
  pub curve_name : EcKey → Option Nid
  pub debug : Nid → String
  pub public_key_from_der : Bytes → Outcome X PKey
  pub bn_from_slice : Bytes → Outcome X ℕ
  pub bn_to_vec : ℕ → Bytes
  pub from_private_components : ℕ → ℕ → Outcome X EcdsaSig
  pub sig_r : EcdsaSig → ℕ
  pub sig_s : EcdsaSig → ℕ
  pub to_der : EcdsaSig → Outcome X Bytes
  pub from_der : Bytes → Outcome X EcdsaSig
  pub ecdsa_sign : Bytes → EcKey → Call X W EcdsaSig
  pub ecdsa_verify : EcdsaSig → Bytes → EcKey → Outcome X Bool

-- What the crate's documents say of numbers and signatures.
pub record EllipticCurvesLaws {X W PKey EcKey EcdsaSig : Type 0}
    (lib : EllipticCurves X W PKey EcKey EcdsaSig) : Type 0 where
  -- "Creates a new BigNum from an unsigned, big-endian encoded number of arbitrary length."
  pub bn_from_slice-eq : (b : Bytes) → lib.bn_from_slice b ≡ ok (big_endian b)
  -- "Returns a big-endian byte vector representation of the absolute value."
  pub big_endian-bn_to_vec : (n : ℕ) → big_endian (lib.bn_to_vec n) ≡ n
  -- The components make the signature.
  pub from_private_components-eq :
      (s : EcdsaSig) → lib.from_private_components (lib.sig_r s) (lib.sig_s s) ≡ ok s
