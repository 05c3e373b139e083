-- ===== src/Encrypt/Decrypt/Opened.antt =====
-- Which messages `decrypt` of src/encrypt.rs opens.
use aws_nitro_enclaves_cose.Prelude.{
  ℕ, ℤ, pos, ◌+◌, ◌-◌, ◌≤◌, Bytes, some, ◌≡◌, ◌↔◌, refl, sym, ap, arith, ◌++◌, length, take, drop,
  Option-cases, inl, inr, take-append-drop, length-append, length-drop_eq,
}
use aws_nitro_enclaves_cose.Prelude.Int.{low_byte}
use aws_nitro_enclaves_cose.Outcome.{ok, map_err, map_err-eq-ok, ok-injective, bind-elim}
use aws_nitro_enclaves_cose.Error.{CoseError, serialization_error, encryption_error, cose}
use aws_nitro_enclaves_cose.Serde.{Cbor, integer}
use aws_nitro_enclaves_cose.HeaderMap
use aws_nitro_enclaves_cose.HeaderMap.{HeaderMap}
use aws_nitro_enclaves_cose.Crypto.Algorithms.{
  CoseAlgorithm, value, tag_size, to_encryption_algorithm,
}
use aws_nitro_enclaves_cose.Crypto.Algorithms.Laws.{from_value-as_i8_iff}
use aws_nitro_enclaves_cose.Crypto.Traits.{Decryption}
use aws_nitro_enclaves_cose.Crypto.Signature.{split_at}
use aws_nitro_enclaves_cose.Crypto.Signature.Layout.{leb-true, split_at-append}
use aws_nitro_enclaves_cose.Sign.Signing.Verify.{integer_of}
use aws_nitro_enclaves_cose.Encrypt.Message.{CoseEncrypt0}
use aws_nitro_enclaves_cose.Encrypt.Cipher.{
  checked_sub, enc_structure_bytes, encryption_algorithm, initialization_vector,
}
use aws_nitro_enclaves_cose.Encrypt.Decrypt.{decrypt}

module _ {X V : Type 0} (c : Cbor X V) where
  named :
      (header : HeaderMap V) (a : CoseAlgorithm)
      → encryption_algorithm c header ≡ ok a
      → (v : V) × (z : ℤ) × (HeaderMap.get c (c.of_integer (pos 1)) header ≡ some v)
        × (c.view v ≡ integer z)
        × (low_byte z ≡ value a)
  unfolding encryption_algorithm
  named header a e = elim (Option-cases (HeaderMap.get c (c.of_integer (pos 1)) header)) [
    | inl absent ↦ ground arith
    | inr (v, found) ↦
        let z : ℤ = integer_of (c.view v) in
        (v, z, found, ground arith, (from_value-as_i8_iff z a).0 (ground arith))
  ]

  names :
      (header : HeaderMap V) (a : CoseAlgorithm) (v : V) (z : ℤ)
      → HeaderMap.get c (c.of_integer (pos 1)) header ≡ some v
      → c.view v ≡ integer z
      → low_byte z ≡ value a
      → encryption_algorithm c header ≡ ok a
  unfolding encryption_algorithm
  names header a v z found view low =
      let named_value = (from_value-as_i8_iff z a).1 low in ground arith

  -- A header map names an algorithm exactly when its entry for key 1 is an integer whose low eight
  -- bits are the algorithm's value: the higher bits are not looked at.
  pub encryption_algorithm_iff :
      (header : HeaderMap V) (a : CoseAlgorithm)
      → (encryption_algorithm c header ≡ ok a) ↔ (
          (v : V) × (z : ℤ) × (HeaderMap.get c (c.of_integer (pos 1)) header ≡ some v)
          × (c.view v ≡ integer z)
          × (low_byte z ≡ value a))
  encryption_algorithm_iff header a =
      (named header a, λ (v, z, found, view, low). names header a v z found view low)

  -- A message that is opened: the cipher accepts the two parts of the ciphertext, the tag being its
  -- last bytes, with the additional data over the header map as it is written anew.
  pub record IsOpened (decryption : Decryption X) (m : CoseEncrypt0 V) (key : Bytes)
      (header : HeaderMap V) (payload : Bytes) : Type 0 where
    pub header_read : HeaderMap.from_bytes c m.protected ≡ ok header
    pub alg : CoseAlgorithm
    pub alg_named : encryption_algorithm c header ≡ ok alg
    pub protected : Bytes
    pub protected_written : HeaderMap.map_to_empty_or_serialized c header ≡ ok protected
    pub iv : Bytes
    pub iv_found : initialization_vector c m.unprotected ≡ ok iv
    pub text : Bytes
    pub tag : Bytes
    pub joined : m.ciphertext ≡ text ++ tag
    pub tag_fits : length tag ≡ tag_size alg
    pub aad : Bytes
    pub aad_written : enc_structure_bytes c protected ≡ ok aad
    pub accepted :
        decryption.decrypt_aead (to_encryption_algorithm alg) key (some iv) aad text tag
        ≡ ok payload

  pub cut_parts :
      (b : Bytes) (size : ℕ) {mid : ℕ} (p : Bytes × Bytes)
      → checked_sub {E = CoseError X} (length b) size ≡ ok mid
      → split_at {E = CoseError X} mid b ≡ ok p
      → (b ≡ p.0 ++ p.1) × (length p.1 ≡ size)
  unfolding split_at
  cut_parts b size {mid} p e s =
      let fits : size ≤ length b = ground arith in
      let mid_is : mid ≡ length b - size = ground arith in
      let p_is : (take mid b, drop mid b) ≡ p = ground arith in
      rw (← p_is) (sym (take-append-drop mid b), omega (arith, length-drop_eq mid b))

  pub IsOpened-of_decrypt :
      (decryption : Decryption X) (m : CoseEncrypt0 V) (key : Bytes)
      (header unprotected : HeaderMap V) (payload : Bytes)
      → decrypt c decryption m key ≡ ok (header, unprotected, payload)
      → (unprotected ≡ m.unprotected) × IsOpened decryption m key header payload
  unfolding decrypt
  IsOpened-of_decrypt decryption m key header unprotected payload e =
      bind-elim (map_err serialization_error (HeaderMap.from_bytes c m.protected)) _ e λ h r e₁.
        bind-elim (encryption_algorithm c h) _ e₁ λ alg a e₂.
          bind-elim (map_err serialization_error (HeaderMap.map_to_empty_or_serialized c h)) _ e₂
            λ b w e₃. bind-elim (initialization_vector c m.unprotected) _ e₃ λ iv i e₄.
              bind-elim (checked_sub (length m.ciphertext) (tag_size alg)) _ e₄ λ mid u e₅.
                bind-elim (split_at mid m.ciphertext) _ e₅ λ p s e₆.
                  bind-elim (enc_structure_bytes c b) _ e₆ λ aad d e₇.
                    bind-elim
                      (map_err (λ x. encryption_error (cose x))
                        (decryption.decrypt_aead (to_encryption_algorithm alg) key (some iv) aad p.0
                          p.1))
                      _ e₇
                      λ q t e₈.
                        let result = ok-injective e₈ in
                        let parts = cut_parts m.ciphertext (tag_size alg) p u s in
                        let h_is : h ≡ header =
                          ap (λ (x : HeaderMap V × HeaderMap V × Bytes). x.0) result in
                        let q_is : q ≡ payload =
                          ap (λ (x : HeaderMap V × HeaderMap V × Bytes). x.2) result in
                        (
                          sym (ap (λ (x : HeaderMap V × HeaderMap V × Bytes). x.1) result),
                          rw (← h_is, ← q_is)
                              (record {
                                header_read = map_err-eq-ok _ _ r;
                                alg = alg;
                                alg_named = a;
                                protected = b;
                                protected_written = map_err-eq-ok _ _ w;
                                iv = iv;
                                iv_found = i;
                                text = p.0;
                                tag = p.1;
                                joined = parts.0;
                                tag_fits = parts.1;
                                aad = aad;
                                aad_written = d;
                                accepted = map_err-eq-ok _ _ t;
                              }),
                        )

  pub decrypt_of_opened :
      (decryption : Decryption X) (m : CoseEncrypt0 V) (key : Bytes) (header : HeaderMap V)
      (payload : Bytes)
      → IsOpened decryption m key header payload
      → decrypt c decryption m key ≡ ok (header, m.unprotected, payload)
  unfolding decrypt
  decrypt_of_opened decryption m key header payload o =
      let size : length m.ciphertext ≡ length o.text + tag_size o.alg =
        omega
          (arith, ap (λ (t : Bytes). length t) o.joined, length-append o.text o.tag, o.tag_fits) in
      let at_text : length m.ciphertext - tag_size o.alg ≡ length o.text = omega (arith, size) in
      let split : split_at {E = CoseError X} (length m.ciphertext - tag_size o.alg) m.ciphertext
          ≡ ok (o.text, o.tag) =
        rw (at_text, o.joined) (split_at-append (length o.text) o.text o.tag refl) in
      rw (
        o.header_read,
        o.alg_named,
        o.protected_written,
        o.iv_found,
        leb-true (tag_size o.alg) (length m.ciphertext) (omega (arith, size)),
        split,
        o.aad_written,
        o.accepted,
      )

  -- `decrypt` gives a header map, the unprotected map and a payload exactly when the protected bytes
  -- hold the header map, it names an algorithm, the unprotected map has an IV, the ciphertext ends in
  -- a tag, and the cipher decrypts to the payload with the additional data over the header map.
  pub decrypt_iff :
      (decryption : Decryption X) (m : CoseEncrypt0 V) (key : Bytes) (header : HeaderMap V)
      (payload : Bytes)
      → (decrypt c decryption m key ≡ ok (header, m.unprotected, payload))
        ↔ IsOpened decryption m key header payload
  decrypt_iff decryption m key header payload = (
    λ e. (IsOpened-of_decrypt decryption m key header m.unprotected payload e).1,
    decrypt_of_opened decryption m key header payload,
  )
