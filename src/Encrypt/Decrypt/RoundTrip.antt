-- ===== src/Encrypt/Decrypt/RoundTrip.antt =====
-- `decrypt` of src/encrypt.rs gives back what `new` encrypted.
use aws_nitro_enclaves_cose.Prelude.{
  ℕ, pos, Bytes, some, ◌≡◌, refl, ◌∙◌, arith, ◌++◌, zero, replicate, length-replicate,
}
use mathlib.Core.Path.{subst}
use aws_nitro_enclaves_cose.OrderedMap
use aws_nitro_enclaves_cose.OrderedMap.Order.{IsSorted}
use aws_nitro_enclaves_cose.Outcome.{ok, ok_or, unwrap, map_err, map_err-eq-ok, ok-injective}
use aws_nitro_enclaves_cose.Call.{lift, bind-elim}
use aws_nitro_enclaves_cose.Error.{serialization_error, encryption_error, cose}
use aws_nitro_enclaves_cose.Serde.{Cbor}
use aws_nitro_enclaves_cose.Serde.Laws.{CborLaws}
use aws_nitro_enclaves_cose.HeaderMap
use aws_nitro_enclaves_cose.HeaderMap.{HeaderMap}
use aws_nitro_enclaves_cose.HeaderMap.RoundTrip.{
  get-insert, is_empty_of_get, from_bytes-map_to_empty_or_serialized,
}
use aws_nitro_enclaves_cose.Crypto.Algorithms.{
  CoseAlgorithm, CipherConfiguration, cose_alg, value, tag_size, iv_len, to_encryption_algorithm,
}
use aws_nitro_enclaves_cose.Crypto.Algorithms.Laws.{from_value-value}
use aws_nitro_enclaves_cose.Crypto.Traits.Contracts.{IsInverse}
use aws_nitro_enclaves_cose.Crypto.Traits.{Entropy, Encryption, Decryption}
use aws_nitro_enclaves_cose.Encrypt.Message.{CoseEncrypt0}
use aws_nitro_enclaves_cose.Encrypt.Cipher.{
  unsupported_algorithm, enc_structure_bytes, protected_map, unprotected_map, new,
  encryption_algorithm, initialization_vector,
}
use aws_nitro_enclaves_cose.Encrypt.Cipher.Outcomes.{iv_len_12}
use aws_nitro_enclaves_cose.Encrypt.Decrypt.{decrypt}
use aws_nitro_enclaves_cose.Encrypt.Decrypt.Opened.{IsOpened, decrypt_of_opened}

module _ {X V : Type 0} (c : Cbor X V) where
  -- How an encrypted message came about.
  pub record IsEncrypted {W : Type 0} (entropy : Entropy X W) (w : W) (encryption : Encryption X)
      (payload : Bytes) (config : CipherConfiguration) (key : Bytes) (m : CoseEncrypt0 V)
      : Type 0 where
    pub alg : CoseAlgorithm
    pub alg_of_key : cose_alg config key ≡ some alg
    pub iv : Bytes
    pub iv_drawn : (entropy.rand_bytes (replicate 12 zero) w).0 ≡ ok iv
    pub protected_written :
        HeaderMap.map_to_empty_or_serialized c (protected_map c alg) ≡ ok m.protected
    pub unprotected_made : m.unprotected ≡ unprotected_map c iv
    pub aad : Bytes
    pub aad_written : enc_structure_bytes c m.protected ≡ ok aad
    pub text : Bytes
    pub tag : Bytes
    pub encrypted :
        encryption.encrypt_aead
          (to_encryption_algorithm alg)
          key
          (some iv)
          aad
          payload
          (replicate (tag_size alg) zero)
        ≡ ok (text, tag)
    pub joined : m.ciphertext ≡ text ++ tag

  -- A message that `new` gives was encrypted so.
  pub new-IsEncrypted :
      {W : Type 0} (entropy : Entropy X W) (encryption : Encryption X) (payload : Bytes)
      (config : CipherConfiguration) (key : Bytes) (w : W) (m : CoseEncrypt0 V)
      → (new c entropy encryption payload config key w).0 ≡ ok m
      → IsEncrypted entropy w encryption payload config key m
  unfolding new
  new-IsEncrypted entropy encryption payload config key w m e =
      bind-elim (lift (ok_or unsupported_algorithm (cose_alg config key))) _ w e λ alg a e₁.
        bind-elim (lift (unwrap (iv_len alg))) _ w e₁ λ len l e₂.
          bind-elim (entropy.rand_bytes (replicate len zero)) _ w e₂ λ iv r e₃.
            let w' = (entropy.rand_bytes (replicate len zero) w).1 in
            bind-elim
              (lift (
                map_err serialization_error
                  (HeaderMap.map_to_empty_or_serialized c (protected_map c alg))))
              _ w' e₃
              λ b p e₄. bind-elim (lift (enc_structure_bytes c b)) _ w' e₄ λ aad s e₅.
                bind-elim
                  (lift (
                    map_err (λ x. encryption_error (cose x))
                      (encryption.encrypt_aead (to_encryption_algorithm alg) key (some iv) aad
                        payload (replicate (tag_size alg) zero))))
                  _ w' e₅
                  λ (text, tag) t e₆.
                    subst (IsEncrypted entropy w encryption payload config key) (ok-injective e₆)
                      (record {
                        alg = alg;
                        alg_of_key = ground arith;
                        iv = iv;
                        iv_drawn =
                            subst (λ (n : ℕ). (entropy.rand_bytes (replicate n zero) w).0 ≡ ok iv)
                              (iv_len_12 alg l) r;
                        protected_written = map_err-eq-ok _ _ p;
                        unprotected_made = refl;
                        aad = aad;
                        aad_written = s;
                        text = text;
                        tag = tag;
                        encrypted = map_err-eq-ok _ _ t;
                        joined = refl;
                      })

  module _ (L : CborLaws c) where
    protected_map-IsSorted : (a : CoseAlgorithm) → IsSorted c.cmp (protected_map c a)
    unfolding protected_map HeaderMap.insert OrderedMap.insert
    protected_map-IsSorted a = (tt, tt)

    get-protected_map :
        (a : CoseAlgorithm)
        → HeaderMap.get c (c.of_integer (pos 1)) (protected_map c a)
          ≡ some (c.of_integer (pos (value a)))
    unfolding protected_map
    get-protected_map a =
        get-insert c L (c.of_integer (pos 1)) (c.of_integer (pos (value a))) HeaderMap.new

    pub encryption_algorithm-protected_map :
        (a : CoseAlgorithm) → encryption_algorithm c (protected_map c a) ≡ ok a
    unfolding encryption_algorithm
    encryption_algorithm-protected_map a =
        ground (arith, get-protected_map a, L.view-of_integer (pos (value a)), from_value-value a)

    pub initialization_vector-unprotected_map :
        (iv : Bytes) → initialization_vector c (unprotected_map c iv) ≡ ok iv
    unfolding initialization_vector unprotected_map
    initialization_vector-unprotected_map iv = ground (
      arith,
      get-insert c L (c.of_integer (pos 5)) (c.of_bytes iv) HeaderMap.new,
      L.view-of_bytes iv,
    )

    pub IsOpened-IsEncrypted :
        {W : Type 0} {entropy : Entropy X W} {w : W} {encryption : Encryption X}
        {decryption : Decryption X}
        → IsInverse encryption decryption
        → {payload : Bytes} {config : CipherConfiguration} {key : Bytes} {m : CoseEncrypt0 V}
        → (g : IsEncrypted entropy w encryption payload config key m)
        → IsOpened c decryption m key (protected_map c g.alg) payload
    IsOpened-IsEncrypted inverse {payload} {key} {m} g =
        let header = protected_map c g.alg in
        let algorithm = to_encryption_algorithm g.alg in
        record {
          header_read =
              from_bytes-map_to_empty_or_serialized c L header m.protected
                (protected_map-IsSorted g.alg)
                (is_empty_of_get c (c.of_integer (pos 1)) header (get-protected_map g.alg))
                g.protected_written;
          alg = g.alg;
          alg_named = encryption_algorithm-protected_map g.alg;
          protected = m.protected;
          protected_written = g.protected_written;
          iv = g.iv;
          iv_found = rw g.unprotected_made (initialization_vector-unprotected_map g.iv);
          text = g.text;
          tag = g.tag;
          joined = g.joined;
          tag_fits =
              inverse.length-tag algorithm key g.iv g.aad payload _ g.text g.tag g.encrypted
              ∙ length-replicate (tag_size g.alg) zero;
          aad = g.aad;
          aad_written = g.aad_written;
          accepted =
              inverse.decrypt-encrypt algorithm key g.iv g.aad payload _ g.text g.tag g.encrypted;
        }

    -- Every message that `new` gives decrypts under the same key, to its own header maps and the
    -- payload. The cipher's decryption inverts its encryption and the format reads back what it
    -- writes.
    pub decrypt-new :
        {W : Type 0} (entropy : Entropy X W) (encryption : Encryption X) (decryption : Decryption X)
        → IsInverse encryption decryption
        → (payload : Bytes) (config : CipherConfiguration) (key : Bytes) (w : W)
          (m : CoseEncrypt0 V)
        → (new c entropy encryption payload config key w).0 ≡ ok m
        → (a : CoseAlgorithm) × (cose_alg config key ≡ some a)
          × (decrypt c decryption m key ≡ ok (protected_map c a, m.unprotected, payload))
    decrypt-new entropy encryption decryption inverse payload config key w m e =
        let g = new-IsEncrypted entropy encryption payload config key w m e in
        (
          g.alg,
          g.alg_of_key,
          decrypt_of_opened c decryption m key (protected_map c g.alg) payload
              (IsOpened-IsEncrypted inverse g),
        )
