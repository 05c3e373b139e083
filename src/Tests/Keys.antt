-- ===== src/Tests/Keys.antt =====
-- A small OpenSSL key, hashes and ciphers that meet what the theorems ask of them.
use aws_nitro_enclaves_cose.Prelude.{
  ap, sym, ℕ, ◌+◌, ◌≤◌, Bytes, String, Bool, true, [], ◌∷◌, some, ◌≡◌, refl, arith, ◌==◌, length,
  replicate, length-replicate, if◌then◌else◌,
}
use aws_nitro_enclaves_cose.Outcome.{Outcome, ok, err, ok-injective}
use aws_nitro_enclaves_cose.Crypto.Algorithms.{es256, sha256, key_length, suggested_message_digest}
use aws_nitro_enclaves_cose.Crypto.Traits.{Hash, Entropy, Encryption, Decryption, SigningPrivateKey}
use aws_nitro_enclaves_cose.Crypto.Traits.Contracts.{IsSound, IsInverse}
use aws_nitro_enclaves_cose.Crypto.Signature.Layout.{big_endian}
use aws_nitro_enclaves_cose.Crypto.Openssl.Library.{
  Symmetric, EllipticCurves, EllipticCurvesLaws, Nid, x9_62_prime256v1,
}
use aws_nitro_enclaves_cose.Crypto.OpensslPkey.{curve_algorithm}
use aws_nitro_enclaves_cose.Crypto.Openssl.Sound as OpensslSound
use aws_nitro_enclaves_cose.Crypto.OpensslPkey
use aws_nitro_enclaves_cose.Crypto.OpensslPkey.Sound

-- A signature of a digest is its length and the count of the signatures made before.
abbrev pub Sig : Type 0
Sig = ℕ × ℕ

pub ==_self : (n : ℕ) → (n == n) ≡ true
==_self n = ground arith

abbrev pub from_der : Bytes → Outcome String Sig
from_der (r ∷ (s ∷ [])) = ok (r, s)
from_der _ = err "no signature"

-- The one public key, in DER form a single byte.
abbrev public_key_from_der : Bytes → Outcome String Nid
public_key_from_der (b ∷ []) = if b == 48 then ok x9_62_prime256v1 else err "no key"
public_key_from_der _ = err "no key"

-- A key is its curve, and the state of the generator a counter.
abbrev pub curves : EllipticCurves String ℕ Nid Nid Sig
curves = record {
  ec_key = λ k. ok k;
  curve_name = λ k. some k;
  debug = λ n. "a curve";
  public_key_from_der = public_key_from_der;
  bn_from_slice = λ b. ok (big_endian b);
  bn_to_vec = λ n. n ∷ [];
  from_private_components = λ r s. ok (r, s);
  sig_r = λ g. g.0;
  sig_s = λ g. g.1;
  to_der = λ g. ok (g.0 ∷ g.1 ∷ []);
  from_der = from_der;
  ecdsa_sign = λ d k w. (ok (length d, w), w + 1);
  ecdsa_verify = λ g d k. ok (g.0 == length d);
}

pub curves-EllipticCurvesLaws : EllipticCurvesLaws curves
unfolding big_endian
curves-EllipticCurvesLaws = record {
  bn_from_slice-eq = λ b. refl;
  big_endian-bn_to_vec = λ n. omega arith;
  from_private_components-eq = λ s. refl;
}

-- A key on P-256.
pub p256_curve : curve_algorithm {X = String} curves.debug x9_62_prime256v1 ≡ ok es256
unfolding curve_algorithm
p256_curve = refl

pub p256_fits : (n : ℕ) → length (n ∷ []) ≤ key_length es256
unfolding key_length
p256_fits n = omega arith

pub p256_accepts :
    (d : Bytes) (w : ℕ) (g : Sig)
    → ◌≡◌ {A = Outcome String Sig} (ok (length d, w)) (ok g)
    → ◌≡◌ {A = Outcome String Bool} (ok (g.0 == length d)) (ok true)
p256_accepts d w g e = ground arith

abbrev pub p256-IsUsable : OpensslPkey.Sound.IsUsable curves x9_62_prime256v1
p256-IsUsable = record {
  key = x9_62_prime256v1;
  curve = x9_62_prime256v1;
  algorithm = es256;
  ec_key-eq = refl;
  curve_name-eq = refl;
  curve_algorithm-eq = p256_curve;
  sig_r_fits = λ d w g e. p256_fits g.0;
  sig_s_fits = λ d w g e. p256_fits g.1;
  ecdsa_verify-ecdsa_sign = p256_accepts;
}

abbrev pub p256_key : SigningPrivateKey String ℕ
p256_key = OpensslPkey.private_key curves x9_62_prime256v1

pub p256_sound : IsSound p256_key
p256_sound =
    OpensslPkey.Sound.private_key_openssl-IsSound curves curves-EllipticCurvesLaws x9_62_prime256v1
      p256-IsUsable

pub p256_parameters : (k : ℕ) → p256_key.get_parameters k ≡ (ok (es256, sha256), k)
unfolding OpensslPkey.get_parameters OpensslPkey.curve_of OpensslPkey.ec_curve_to_parameters
    curve_algorithm suggested_message_digest
p256_parameters k = refl

abbrev pub p256_key-IsSound : IsSound p256_key
p256_key-IsSound = record {
  algorithm = es256;
  digest = sha256;
  get_parameters-eq = p256_parameters;
  verify-sign = p256_sound.verify-sign;
}

-- A hash of one byte.
abbrev pub sum_hash : Hash String
sum_hash = record { hash = λ d b. ok (length b ∷ []) }

-- A cipher that hides nothing, and a generator of zeros.
abbrev pub clear_encryption : Encryption String
clear_encryption = record {
  encrypt_aead = λ a key iv aad text tag. ok (text, replicate (length tag) 7);
}

abbrev pub clear_decryption : Decryption String
clear_decryption = record { decrypt_aead = λ a key iv aad text tag. ok text }

abbrev pub zeros : Entropy String ℕ
zeros = record { rand_bytes = λ b w. (ok b, w + 1) }

pub clear-IsInverse : IsInverse clear_encryption clear_decryption
clear-IsInverse = record {
  length-tag = λ a key iv aad text buffer ciphertext tag e.
      rw (← ap (λ (p : Bytes × Bytes). p.1) (ok-injective e)) (length-replicate (length buffer) 7);
  decrypt-encrypt = λ a key iv aad text buffer ciphertext tag e.
      let text_is : text ≡ ciphertext = ap (λ (p : Bytes × Bytes). p.0) (ok-injective e) in
      ap ok (sym text_is);
}

-- The library of symmetric ciphers behind a provider, which numbers its ciphers and hashes.
abbrev pub symmetric : Symmetric String ℕ ℕ ℕ
symmetric = record {
  rand_bytes = λ b w. (ok b, w + 1);
  aes_128_gcm = 0;
  aes_192_gcm = 1;
  aes_256_gcm = 2;
  sha256 = 0;
  sha384 = 1;
  sha512 = 2;
  encrypt_aead = λ cipher key iv aad text tag. ok (text, replicate (length tag) cipher);
  decrypt_aead = λ cipher key iv aad text tag. ok text;
  hash = λ digest b. ok (length b ∷ []);
}

pub symmetric-IsAead : OpensslSound.IsAead symmetric
symmetric-IsAead = record {
  length-tag = λ cipher key iv aad text buffer ciphertext tag e.
      rw (← ap (λ (p : Bytes × Bytes). p.1) (ok-injective e))
        (length-replicate (length buffer) cipher);
  decrypt-encrypt = λ cipher key iv aad text buffer ciphertext tag e.
      let text_is : text ≡ ciphertext = ap (λ (p : Bytes × Bytes). p.0) (ok-injective e) in
      ap ok (sym text_is);
}
