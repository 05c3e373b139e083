-- ===== src/Encrypt/Decrypt/Panics.antt =====
-- When `decrypt` of src/encrypt.rs panics.
use aws_nitro_enclaves_cose.Prelude.{
  pos, ◌<◌, Bytes, Option, some, ◌≡◌, ◌↔◌, ◌⊎◌, inl, inr, length, arith, Option-cases, Bool-cases,
  leb, ◌-◌,
}
use aws_nitro_enclaves_cose.Prelude.Int.{as_i8}
use aws_nitro_enclaves_cose.Outcome.{Outcome, ok, panic, map_err-eq-ok, ◌>>=◌}
use aws_nitro_enclaves_cose.Outcome.Ensures.{
  Total, returns, throws, panic-elim, Ensures-not_panic, Ensures-ok_or, Total-bind, Total-map_err,
}
use aws_nitro_enclaves_cose.Error.{CoseError, serialization_error, encryption_error, cose}
use aws_nitro_enclaves_cose.Serde.{Cbor}
use aws_nitro_enclaves_cose.Serde.Laws.{IsTotal}
use aws_nitro_enclaves_cose.Serde.Total.{View-cases}
use aws_nitro_enclaves_cose.HeaderMap
use aws_nitro_enclaves_cose.HeaderMap.{HeaderMap}
use aws_nitro_enclaves_cose.HeaderMap.Total.{from_bytes-Total, map_to_empty_or_serialized-Total}
use aws_nitro_enclaves_cose.Crypto.Algorithms.{
  CoseAlgorithm, EncryptionAlgorithm, from_value, tag_size, to_encryption_algorithm,
}
use aws_nitro_enclaves_cose.Crypto.Traits.{Decryption}
use aws_nitro_enclaves_cose.Crypto.Signature.{split_at}
use aws_nitro_enclaves_cose.Crypto.Signature.Panics.{split_at_long}
use aws_nitro_enclaves_cose.Encrypt.Structure
use aws_nitro_enclaves_cose.Encrypt.Message.{CoseEncrypt0}
use aws_nitro_enclaves_cose.Encrypt.Cipher.{
  checked_sub, unsupported_algorithm, enc_structure_bytes, encryption_algorithm,
  initialization_vector,
}
use aws_nitro_enclaves_cose.Encrypt.Decrypt.{decrypt}
use aws_nitro_enclaves_cose.Encrypt.Decrypt.Refused.{decrypt_short}
use aws_nitro_enclaves_cose.Encrypt.Cipher.Outcomes.{size_16}

module _ {X V : Type 0} (c : Cbor X V) where
  -- A message whose header maps can be read, with a ciphertext that is shorter than a tag.
  pub record IsShort (m : CoseEncrypt0 V) : Type 0 where
    pub header : HeaderMap V
    pub header_read : HeaderMap.from_bytes c m.protected ≡ ok header
    pub alg : CoseAlgorithm
    pub alg_found : encryption_algorithm c header ≡ ok alg
    pub protected : Bytes
    pub protected_written : HeaderMap.map_to_empty_or_serialized c header ≡ ok protected
    pub iv : Bytes
    pub iv_found : initialization_vector c m.unprotected ≡ ok iv
    pub short : length m.ciphertext < 16

  encryption_algorithm-Total : (header : HeaderMap V) → Total (encryption_algorithm c header)
  unfolding encryption_algorithm
  encryption_algorithm-Total header =
      elim (Option-cases (HeaderMap.get c (c.of_integer (pos 1)) header)) [
        | inl absent ↦ rw (encryption_algorithm, absent) (throws tt)
        | inr (v, found) ↦ elim (View-cases (c.view v)) [
          | inl (z, e) ↦
              rw (encryption_algorithm, found, e)
                (Ensures-ok_or unsupported_algorithm (from_value (as_i8 z)) tt)
          | inr (inl (b, e)) ↦ rw (encryption_algorithm, found, e) (throws tt)
          | inr (inr e) ↦ rw (encryption_algorithm, found, e) (throws tt)
        ]
      ]

  initialization_vector-Total : (header : HeaderMap V) → Total (initialization_vector c header)
  unfolding initialization_vector
  initialization_vector-Total header =
      elim (Option-cases (HeaderMap.get c (c.of_integer (pos 5)) header)) [
        | inl absent ↦ rw (initialization_vector, absent) (throws tt)
        | inr (v, found) ↦ elim (View-cases (c.view v)) [
          | inl (z, e) ↦ rw (initialization_vector, found, e) (throws tt)
          | inr (inl (b, e)) ↦ rw (initialization_vector, found, e) (returns tt)
          | inr (inr e) ↦ rw (initialization_vector, found, e) (throws tt)
        ]
      ]

  pub enc_structure_bytes-Total : IsTotal c → (b : Bytes) → Total (enc_structure_bytes c b)
  unfolding enc_structure_bytes Structure.new_encrypt0 Structure.as_bytes
  enc_structure_bytes-Total T b = Total-map_err _ (T.to_vec-Total _)

  -- The cut of the ciphertext and its tag panics only on a ciphertext that is too short.
  cut-Total :
      {B : Type 0} (alg : CoseAlgorithm) (b : Bytes)
      (next : Bytes × Bytes → Outcome (CoseError X) B)
      → ((p : Bytes × Bytes) → Total (next p))
      → (length b < 16)
        ⊎ Total (checked_sub (length b) (tag_size alg) >>= λ mid. split_at mid b >>= next)
  cut-Total alg b next total = elim (Bool-cases (leb 16 (length b))) [
    | inr short ↦ inl (ground arith)
    | inl fits ↦ elim (split_at_long {E = CoseError X} (length b - 16) b) [
      | inl absent ↦ absurd (omega arith)
      | inr cut ↦ inr (rw (size_16 alg, fits, cut) (total _))
    ]
  ]

  module _ (T : IsTotal c) (decryption : Decryption X)
      (cipher_total : (a : EncryptionAlgorithm) (key : Bytes) (iv : Option Bytes)
          (aad text tag : Bytes)
        → Total (decryption.decrypt_aead a key iv aad text tag)) where
    IsShort-of_panic :
        (m : CoseEncrypt0 V) (key : Bytes) → decrypt c decryption m key ≡ panic → IsShort m
    unfolding decrypt
    IsShort-of_panic m key e =
        panic-elim (Total-map_err serialization_error (from_bytes-Total c T m.protected)) e
          λ header r e₁. panic-elim (encryption_algorithm-Total header) e₁ λ alg a e₂.
            panic-elim
              (Total-map_err serialization_error (map_to_empty_or_serialized-Total c T header)) e₂
              λ b w e₃. panic-elim (initialization_vector-Total m.unprotected) e₃ λ iv i e₄.
                elim (cut-Total alg m.ciphertext _ (λ p.
                  Total-bind (enc_structure_bytes-Total T b) λ aad.
                    Total-bind
                      (Total-map_err (λ x. encryption_error (cose x))
                        (cipher_total (to_encryption_algorithm alg) key (some iv) aad p.0 p.1))
                      λ payload. returns tt)) [
                        | inl short ↦ record {
                          header = header;
                          header_read = map_err-eq-ok _ _ r;
                          alg = alg;
                          alg_found = a;
                          protected = b;
                          protected_written = map_err-eq-ok _ _ w;
                          iv = iv;
                          iv_found = i;
                          short = short;
                        }
                        | inr total ↦ absurd (Ensures-not_panic total e₄)
                      ]

    -- `decrypt` panics on exactly the messages whose protected header map can be read and written again
    -- and names an algorithm, whose unprotected one has an IV, and whose ciphertext is shorter than 16
    -- bytes, whatever the key is. The format and the cipher do not panic.
    pub decrypt_panic_iff :
        (m : CoseEncrypt0 V) (key : Bytes) → (decrypt c decryption m key ≡ panic) ↔ IsShort m
    decrypt_panic_iff m key = (
      IsShort-of_panic m key,
      λ s.
          decrypt_short c decryption m key s.header s.alg s.protected s.iv s.header_read s.alg_found
            s.protected_written s.iv_found s.short,
    )
