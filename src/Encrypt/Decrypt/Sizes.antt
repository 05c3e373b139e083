-- ===== src/Encrypt/Decrypt/Sizes.antt =====
-- How long the parts of a message that `new` of src/encrypt.rs makes are.
use aws_nitro_enclaves_cose.Prelude.{
  ◌+◌, Bytes, some, ◌≡◌, ◌∙◌, arith, ap, length, length-append, length-replicate, replicate, zero,
}
use aws_nitro_enclaves_cose.Outcome.{ok}
use aws_nitro_enclaves_cose.Serde.{Cbor}
use aws_nitro_enclaves_cose.Serde.Laws.{CborLaws}
use aws_nitro_enclaves_cose.Crypto.Algorithms.{
  CipherConfiguration, EncryptionAlgorithm, tag_size, to_encryption_algorithm,
}
use aws_nitro_enclaves_cose.Crypto.Traits.{Entropy, Encryption}
use aws_nitro_enclaves_cose.Encrypt.Message.{CoseEncrypt0}
use aws_nitro_enclaves_cose.Encrypt.Cipher.{new, initialization_vector}
use aws_nitro_enclaves_cose.Encrypt.Cipher.Outcomes.{size_16}
use aws_nitro_enclaves_cose.Encrypt.Decrypt.RoundTrip.{
  new-IsEncrypted, initialization_vector-unprotected_map,
}

-- A cipher in a counter mode, as GCM is: the text keeps its length. And a generator that fills its
-- buffer.
pub record KeepsLength {X W : Type 0} (entropy : Entropy X W) (encryption : Encryption X)
    : Type 0 where
  pub length-rand_bytes :
      (buffer iv : Bytes) (w : W)
      → (entropy.rand_bytes buffer w).0 ≡ ok iv
      → length iv ≡ length buffer
  pub length-text :
      (a : EncryptionAlgorithm) (key iv aad text buffer ciphertext tag : Bytes)
      → encryption.encrypt_aead a key (some iv) aad text buffer ≡ ok (ciphertext, tag)
      → length ciphertext ≡ length text
  pub length-tag :
      (a : EncryptionAlgorithm) (key iv aad text buffer ciphertext tag : Bytes)
      → encryption.encrypt_aead a key (some iv) aad text buffer ≡ ok (ciphertext, tag)
      → length tag ≡ length buffer

module _ {X V W : Type 0} (c : Cbor X V) (L : CborLaws c) (entropy : Entropy X W)
    (encryption : Encryption X) (N : KeepsLength entropy encryption) where
  -- A message that `new` gives has a ciphertext of just 16 bytes more than the payload, and an IV of
  -- 12 bytes that `decrypt` finds. The cipher keeps the length of the text and the generator and the
  -- tag fill their buffers.
  pub new-sizes :
      (payload : Bytes) (config : CipherConfiguration) (key : Bytes) (w : W) (m : CoseEncrypt0 V)
      → (new c entropy encryption payload config key w).0 ≡ ok m
      → (length m.ciphertext ≡ length payload + 16)
        × ((iv : Bytes) × (initialization_vector c m.unprotected ≡ ok iv) × (length iv ≡ 12))
  new-sizes payload config key w m e =
      let g = new-IsEncrypted c entropy encryption payload config key w m e in
      let buffer = replicate (tag_size g.alg) zero in
      let text_length =
        N.length-text (to_encryption_algorithm g.alg) key g.iv g.aad payload buffer g.text g.tag
          g.encrypted in
      let tag_length =
        N.length-tag (to_encryption_algorithm g.alg) key g.iv g.aad payload buffer g.text g.tag
          g.encrypted
        ∙ length-replicate (tag_size g.alg) zero
        ∙ size_16 g.alg in
      (
        rw g.joined (omega (arith, length-append g.text g.tag, text_length, tag_length)),
        (
          g.iv,
          ap (initialization_vector c) g.unprotected_made
              ∙ initialization_vector-unprotected_map c L g.iv,
          N.length-rand_bytes (replicate 12 zero) g.iv w g.iv_drawn ∙ length-replicate 12 zero,
        ),
      )
