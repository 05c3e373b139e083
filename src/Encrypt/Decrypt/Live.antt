-- ===== src/Encrypt/Decrypt/Live.antt =====
-- That `new` of src/encrypt.rs gives a message that `decrypt` opens, unless one of its parts fails.
use aws_nitro_enclaves_cose.Prelude.{
  ◌+◌, ◌*◌, Bytes, some, ◌≡◌, ◌∙◌, length, length-replicate, replicate, zero,
}
use aws_nitro_enclaves_cose.Outcome.{ok, ok_or-eq-ok, unwrap}
use aws_nitro_enclaves_cose.Outcome.Ensures.{
  Ensures, Total, returns, Ensures-ok_or, Ensures-of_Total, Total-resume, Total-map_err,
}
use aws_nitro_enclaves_cose.Error.{serialization_error, encryption_error, cose}
use aws_nitro_enclaves_cose.Serde.{Cbor}
use aws_nitro_enclaves_cose.Serde.Laws.{CborLaws, IsTotal}
use aws_nitro_enclaves_cose.HeaderMap.Total.{map_to_empty_or_serialized-Total}
use aws_nitro_enclaves_cose.Crypto.Algorithms.{
  CoseAlgorithm, aes_gcm_96_128_128, aes_gcm_96_128_192, aes_gcm_96_128_256, gcm, cose_alg, iv_len,
  tag_size, to_encryption_algorithm, value,
}
use aws_nitro_enclaves_cose.Crypto.Algorithms.Laws.{cose_alg-eq-some_iff}
use aws_nitro_enclaves_cose.Crypto.Traits.{Entropy, Encryption, Decryption}
use aws_nitro_enclaves_cose.Crypto.Traits.Contracts.{IsInverse}
use aws_nitro_enclaves_cose.Encrypt.Message.{CoseEncrypt0}
use aws_nitro_enclaves_cose.Encrypt.Cipher.{new, protected_map, unsupported_algorithm}
use aws_nitro_enclaves_cose.Encrypt.Cipher.Outcomes.{iv_len_12, IsNotEncrypted, new-IsNotEncrypted}
use aws_nitro_enclaves_cose.Encrypt.Decrypt.{decrypt}
use aws_nitro_enclaves_cose.Encrypt.Decrypt.Panics.{enc_structure_bytes-Total}
use aws_nitro_enclaves_cose.Encrypt.Decrypt.RoundTrip.{decrypt-new}

-- A generator and a cipher that may fail and do not panic, where the generator fills its buffer and
-- the key and the IV have the lengths that the cipher asks for.
pub record DoNotPanic {X W : Type 0} (entropy : Entropy X W) (encryption : Encryption X)
    : Type 0 where
  pub rand_bytes-Total : (b : Bytes) (w : W) → Total (entropy.rand_bytes b w).0
  pub length-rand_bytes :
      (buffer iv : Bytes) (w : W)
      → (entropy.rand_bytes buffer w).0 ≡ ok iv
      → length iv ≡ length buffer
  pub encrypt_aead-Total :
      (alg : CoseAlgorithm) (key iv aad text buffer : Bytes)
      → length key ≡ 8 + 8 * value alg
      → length iv ≡ 12
      → Total (encryption.encrypt_aead (to_encryption_algorithm alg) key (some iv) aad text buffer)

unwrap-iv_len-Total : {X : Type 0} (a : CoseAlgorithm) → Total (unwrap {E = X} (iv_len a))
unfolding iv_len
unwrap-iv_len-Total aes_gcm_96_128_128 = returns tt
unwrap-iv_len-Total aes_gcm_96_128_192 = returns tt
unwrap-iv_len-Total aes_gcm_96_128_256 = returns tt

module _ {X V W : Type 0} (c : Cbor X V) (L : CborLaws c) (T : IsTotal c) (entropy : Entropy X W)
    (encryption : Encryption X) (N : DoNotPanic entropy encryption) where
  new-Total : (payload key : Bytes) (w : W) → Total (new c entropy encryption payload gcm key w).0
  unfolding new
  new-Total payload key w =
      Total-resume _ w (Ensures-ok_or unsupported_algorithm (cose_alg gcm key) tt) λ alg a.
        let fits = (cose_alg-eq-some_iff key alg).0 (ok_or-eq-ok unsupported_algorithm _ a) in
        Total-resume _ w (unwrap-iv_len-Total alg) λ len l.
          let w' = (entropy.rand_bytes (replicate len zero) w).1 in
          Total-resume _ w' (N.rand_bytes-Total (replicate len zero) w) λ iv r.
            let drawn : length iv ≡ 12 =
              N.length-rand_bytes (replicate len zero) iv w r
              ∙ length-replicate len zero
              ∙ iv_len_12 alg l in
            Total-resume _ w'
              (Total-map_err serialization_error
                (map_to_empty_or_serialized-Total c T (protected_map c alg)))
              λ b p. Total-resume _ w' (enc_structure_bytes-Total c T b) λ aad s.
                Total-resume _ w'
                  (Total-map_err (λ x. encryption_error (cose x))
                    (N.encrypt_aead-Total alg key iv aad payload (replicate (tag_size alg) zero)
                      fits drawn))
                  λ parts t. returns tt

  -- For every payload and every key `new` ends without a panic. It gives a message from which
  -- `decrypt` gives the payload back, with the header map that names the cipher of the key's length;
  -- or else an error that says why: the key is not 16, 24 or 32 bytes long, the generator failed, the
  -- format does not write that header map or the Enc_structure over it, or the cipher failed on them.
  -- The format, the generator and the cipher do not panic on lengths that fit, the generator fills its
  -- buffer, the cipher's decryption inverts its encryption, and the format reads back what it writes.
  pub new-Ensures_encrypt0 :
      (decryption : Decryption X)
      → IsInverse encryption decryption
      → (payload key : Bytes) (w : W)
      → Ensures
          (λ (m : CoseEncrypt0 V).
            (a : CoseAlgorithm) × (length key ≡ 8 + 8 * value a)
            × (decrypt c decryption m key ≡ ok (protected_map c a, m.unprotected, payload)))
          (IsNotEncrypted c entropy encryption payload key w)
          (new c entropy encryption payload gcm key w).0
  new-Ensures_encrypt0 decryption inverse payload key w =
      Ensures-of_Total (new-Total payload key w)
        (λ m e.
          let (a, fits, opened) =
            decrypt-new c L entropy encryption decryption inverse payload gcm key w m e in
          (a, (cose_alg-eq-some_iff key a).0 fits, opened))
        (new-IsNotEncrypted c entropy encryption payload key w)
