-- ===== src/Encrypt/Cipher.antt =====
-- `CoseEncrypt0` of src/encrypt.rs at work: `new` and `decrypt`.
pub mod Outcomes
use aws_nitro_enclaves_cose.Prelude.{
  ℕ, pos, ◌-◌, Bytes, none, some, ◌++◌, leb, if◌then◌else◌, replicate, zero,
}
use aws_nitro_enclaves_cose.Prelude.Int.{as_i8}
use aws_nitro_enclaves_cose.Outcome.{Outcome, ok, err, panic, map_err, ok_or, unwrap}
use aws_nitro_enclaves_cose.Outcome
use aws_nitro_enclaves_cose.Call.{Call, lift, ◌>>=◌}
use aws_nitro_enclaves_cose.Error.{
  CoseError, serialization_error, encryption_error, specification_error, unsupported_error, cose,
}
use aws_nitro_enclaves_cose.Serde.{Cbor, integer, byte_string}
use aws_nitro_enclaves_cose.HeaderMap
use aws_nitro_enclaves_cose.HeaderMap.{HeaderMap}
use aws_nitro_enclaves_cose.Crypto.Algorithms.{
  CoseAlgorithm, CipherConfiguration, cose_alg, value, from_value, tag_size, iv_len,
  to_encryption_algorithm,
}
use aws_nitro_enclaves_cose.Crypto.Traits.{Entropy, Encryption}
use aws_nitro_enclaves_cose.Encrypt.Structure
use aws_nitro_enclaves_cose.Encrypt.Message.{CoseEncrypt0}

-- `a - b` on usize: an overflow check where it is built in, and otherwise a number past every
-- length, at which `split_at` panics.
abbrev pub checked_sub : {E : Type 0} → ℕ → ℕ → Outcome E ℕ
checked_sub a b = if leb b a then ok (a - b) else panic

abbrev pub unsupported_algorithm : {X : Type 0} → CoseError X
unsupported_algorithm = unsupported_error "Unsupported encryption algorithm"

module _ {X V : Type 0} (c : Cbor X V) where
  -- The additional data of the cipher, in `new` and in `decrypt`.
  unfoldable pub enc_structure_bytes : Bytes → Outcome (CoseError X) Bytes
  enc_structure_bytes protected =
      Outcome.◌>>=◌ (map_err serialization_error (Structure.new_encrypt0 protected))
        λ s. map_err serialization_error (Structure.as_bytes c s)

  unfoldable pub protected_map : CoseAlgorithm → HeaderMap V
  protected_map alg =
      (HeaderMap.insert c (c.of_integer (pos 1)) (c.of_integer (pos (value alg))) HeaderMap.new).1

  unfoldable pub unprotected_map : Bytes → HeaderMap V
  unprotected_map iv = (HeaderMap.insert c (c.of_integer (pos 5)) (c.of_bytes iv) HeaderMap.new).1

  unfoldable pub new :
      {W : Type 0}
      → Entropy X W
      → Encryption X
      → Bytes
      → CipherConfiguration
      → Bytes
      → Call (CoseError X) W (CoseEncrypt0 V)
  new entropy encryption payload cipher_config key = do
    alg ← lift (ok_or unsupported_algorithm (cose_alg cipher_config key))
    len ← lift (unwrap (iv_len alg))
    iv ← entropy.rand_bytes (replicate len zero)
    protected_bytes ←
        lift
          (map_err serialization_error (HeaderMap.map_to_empty_or_serialized c (protected_map alg)))
    aad ← lift (enc_structure_bytes protected_bytes)
    (ciphertext, tag) ← lift (
        map_err (λ e. encryption_error (cose e))
          (encryption.encrypt_aead (to_encryption_algorithm alg) key (some iv) aad payload
            (replicate (tag_size alg) zero)))
    lift (
        ok record {
          protected = protected_bytes;
          unprotected = unprotected_map iv;
          ciphertext = ciphertext ++ tag;
        })

  -- `protected_enc_alg` and `cose_alg` of `decrypt`: the integer is cut to its low eight bits.
  unfoldable pub encryption_algorithm : HeaderMap V → Outcome (CoseError X) CoseAlgorithm
  encryption_algorithm protected =
      let invalid : Outcome (CoseError X) CoseAlgorithm = err (
        specification_error
          "Protected Header contains invalid Encryption Algorithm specification") in
      elim (HeaderMap.get c (c.of_integer (pos 1)) protected) [
        | some v ↦ elim (c.view v) [
          | integer val ↦ ok_or unsupported_algorithm (from_value (as_i8 val))
          | _ ↦ invalid
        ]
        | none ↦ invalid
      ]

  -- `iv` of `decrypt`
  unfoldable pub initialization_vector : HeaderMap V → Outcome (CoseError X) Bytes
  initialization_vector unprotected =
      let invalid : Outcome (CoseError X) Bytes =
        err (specification_error "Unprotected Header contains invalid IV specification") in
      elim (HeaderMap.get c (c.of_integer (pos 5)) unprotected) [
        | some v ↦ elim (c.view v) [ byte_string val ↦ ok val | _ ↦ invalid ]
        | none ↦ invalid
      ]
