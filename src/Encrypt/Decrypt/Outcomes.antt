-- ===== src/Encrypt/Decrypt/Outcomes.antt =====
-- The errors with which `decrypt` of src/encrypt.rs ends.
use aws_nitro_enclaves_cose.Prelude.{
  ℕ, ℤ, pos, Bytes, some, ◌≡◌, ◌≢◌, sym, ◌++◌, arith, length, Option-cases, inl, inr,
}
use mathlib.Core.Path.{subst}
use aws_nitro_enclaves_cose.Prelude.Int.{as_i8, low_byte}
use aws_nitro_enclaves_cose.Outcome.{
  ok, err, map_err, map_err-eq-ok, map_err-eq-err, err-elim, err-injective,
}
use aws_nitro_enclaves_cose.Error.{
  CoseError, serialization_error, specification_error, encryption_error, cose,
}
use aws_nitro_enclaves_cose.Serde.{Cbor, Item, integer, byte_string}
use aws_nitro_enclaves_cose.Serde.Total.{View-cases}
use aws_nitro_enclaves_cose.HeaderMap
use aws_nitro_enclaves_cose.HeaderMap.{HeaderMap}
use aws_nitro_enclaves_cose.Crypto.Algorithms.{
  CoseAlgorithm, value, from_value, tag_size, to_encryption_algorithm,
}
use aws_nitro_enclaves_cose.Crypto.Algorithms.Laws.{from_value-as_i8_iff}
use aws_nitro_enclaves_cose.Crypto.Traits.{Decryption}
use aws_nitro_enclaves_cose.Crypto.Signature.{split_at}
use aws_nitro_enclaves_cose.Encrypt.Message.{CoseEncrypt0}
use aws_nitro_enclaves_cose.Encrypt.Cipher.{
  checked_sub, enc_structure_bytes, encryption_algorithm, initialization_vector,
  unsupported_algorithm,
}
use aws_nitro_enclaves_cose.Encrypt.Cipher.Outcomes.{
  map_to_empty_or_serialized-Unwritten, enc_structure_bytes-Unwritten,
}
use aws_nitro_enclaves_cose.Encrypt.Decrypt.{decrypt}
use aws_nitro_enclaves_cose.Encrypt.Decrypt.Opened.{cut_parts}
use aws_nitro_enclaves_cose.Encrypt.Decrypt.Refused.{invalid_algorithm}

abbrev pub invalid_iv : {X : Type 0} → CoseError X
invalid_iv = specification_error "Unprotected Header contains invalid IV specification"

module _ {X V : Type 0} (c : Cbor X V) (decryption : Decryption X) where
  -- Why a message is refused, with the error that says so.
  pub data IsRefused (m : CoseEncrypt0 V) (key : Bytes) : CoseError X → Type 0 where
    unreadable :
        {x : X}
        → HeaderMap.from_bytes c m.protected ≡ err x
        → IsRefused m key (serialization_error x)
    unwritten : {x : X} (i : Item V) → c.to_vec i ≡ err x → IsRefused m key (serialization_error x)
    unnamed :
        (header : HeaderMap V)
        → HeaderMap.from_bytes c m.protected ≡ ok header
        → ((v : V) (z : ℤ)
            → HeaderMap.get c (c.of_integer (pos 1)) header ≡ some v
            → c.view v ≢ integer z)
        → IsRefused m key invalid_algorithm
    unknown :
        (header : HeaderMap V) (v : V) (z : ℤ)
        → HeaderMap.from_bytes c m.protected ≡ ok header
        → HeaderMap.get c (c.of_integer (pos 1)) header ≡ some v
        → c.view v ≡ integer z
        → ((a : CoseAlgorithm) → low_byte z ≢ value a)
        → IsRefused m key unsupported_algorithm
    without_iv :
        ((v : V) (b : Bytes)
          → HeaderMap.get c (c.of_integer (pos 5)) m.unprotected ≡ some v
          → c.view v ≢ byte_string b)
        → IsRefused m key invalid_iv
    of_cipher :
        {e : CoseError X} (alg : CoseAlgorithm) (iv aad text tag : Bytes)
        → initialization_vector c m.unprotected ≡ ok iv
        → m.ciphertext ≡ text ++ tag
        → length tag ≡ tag_size alg
        → decryption.decrypt_aead (to_encryption_algorithm alg) key (some iv) aad text tag ≡ err e
        → IsRefused m key (encryption_error (cose e))

  algorithm-IsRefused :
      (m : CoseEncrypt0 V) (key : Bytes) (header : HeaderMap V) {e : CoseError X}
      → HeaderMap.from_bytes c m.protected ≡ ok header
      → encryption_algorithm c header ≡ err e
      → IsRefused m key e
  unfolding encryption_algorithm
  algorithm-IsRefused m key header {e} read h =
      let R = IsRefused m key in
      let get = HeaderMap.get c (c.of_integer (pos 1)) header in
      elim (Option-cases get) [
        | inl absent ↦
            subst R (err-injective (rw (encryption_algorithm, absent) at h))
              (unnamed header read (λ v z found view. cc))
        | inr (v, found) ↦ elim (View-cases (c.view v)) [
          | inl (z, view) ↦ elim (Option-cases (from_value (as_i8 z))) [
            | inl none_known ↦
                subst R (err-injective (rw (encryption_algorithm, found, view, none_known) at h)) (
                  unknown header v z read found view
                    (λ a low. let is_known = (from_value-as_i8_iff z a).1 low in cc))
            | inr (a, known) ↦
                let h' : ok a ≡ err e = (rw (encryption_algorithm, found, view, known) at h) in cc
          ]
          | inr (inl (b, view)) ↦
              subst R (err-injective (rw (encryption_algorithm, found, view) at h))
                (unnamed header read (λ v' z found' view'. cc))
          | inr (inr view) ↦
              subst R (err-injective (rw (encryption_algorithm, found, view) at h))
                (unnamed header read (λ v' z found' view'. cc))
        ]
      ]

  iv-IsRefused :
      (m : CoseEncrypt0 V) (key : Bytes) {e : CoseError X}
      → initialization_vector c m.unprotected ≡ err e
      → IsRefused m key e
  unfolding initialization_vector
  iv-IsRefused m key {e} h =
      let R = IsRefused m key in
      elim (Option-cases (HeaderMap.get c (c.of_integer (pos 5)) m.unprotected)) [
        | inl absent ↦
            subst R (err-injective (rw (initialization_vector, absent) at h))
              (without_iv (λ v b found view. cc))
        | inr (v, found) ↦ elim (View-cases (c.view v)) [
          | inl (z, view) ↦
              subst R (err-injective (rw (initialization_vector, found, view) at h))
                (without_iv (λ v' b found' view'. cc))
          | inr (inl (b, view)) ↦
              let h' : ok b ≡ err e = (rw (initialization_vector, found, view) at h) in cc
          | inr (inr view) ↦
              subst R (err-injective (rw (initialization_vector, found, view) at h))
                (without_iv (λ v' b found' view'. cc))
        ]
      ]

  not_from_cut : {P : Type 0} (a b : ℕ) {e : CoseError X} → checked_sub a b ≡ err e → P
  not_from_cut a b h = ground arith

  not_from_split : {P : Type 0} (mid : ℕ) (b : Bytes) {e : CoseError X} → split_at mid b ≡ err e → P
  unfolding split_at
  not_from_split mid b h = ground arith

  -- Every error of `decrypt` says why: the protected bytes cannot be read, an item cannot be written,
  -- the protected header map has no integer for the algorithm or one whose low eight bits are the
  -- value of none, the unprotected map has no bytes for the IV, or the cipher refused the two parts
  -- of the ciphertext. Each kind of reason has its kind of error, and there is no other error.
  pub decrypt-IsRefused :
      (m : CoseEncrypt0 V) (key : Bytes) (e : CoseError X)
      → decrypt c decryption m key ≡ err e
      → IsRefused m key e
  unfolding decrypt
  decrypt-IsRefused m key e h =
      let R = IsRefused m key in
      err-elim (map_err serialization_error (HeaderMap.from_bytes c m.protected)) _ h
        (λ r. let (x, read, same) = map_err-eq-err _ _ r in subst R (sym same) (unreadable read))
        λ header r h₁.
          err-elim (encryption_algorithm c header) _ h₁
            (algorithm-IsRefused m key header (map_err-eq-ok _ _ r))
            λ alg a h₂.
              err-elim (map_err serialization_error (HeaderMap.map_to_empty_or_serialized c header))
                _ h₂
                (λ w.
                  let (x, unmade, same) = map_err-eq-err _ _ w in
                  subst R (sym same)
                    (let u = map_to_empty_or_serialized-Unwritten c header unmade in unwritten _ u))
                λ b w h₃.
                  err-elim (initialization_vector c m.unprotected) _ h₃ (iv-IsRefused m key)
                    λ iv i h₄.
                      err-elim (checked_sub (length m.ciphertext) (tag_size alg)) _ h₄
                        (not_from_cut _ _)
                        λ mid u h₅.
                          err-elim (split_at mid m.ciphertext) _ h₅ (not_from_split _ _) λ p s h₆.
                            err-elim (enc_structure_bytes c b) _ h₆
                              (λ d.
                                let (x, u, same) = enc_structure_bytes-Unwritten c b d in
                                subst R (sym same) (unwritten _ u))
                              λ aad d h₇.
                                err-elim
                                  (map_err (λ x. encryption_error (cose x))
                                    (decryption.decrypt_aead (to_encryption_algorithm alg) key
                                      (some iv) aad p.0 p.1))
                                  _ h₇
                                  (λ t.
                                    let (x, refused, same) = map_err-eq-err _ _ t in
                                    let (joined, fits) =
                                      cut_parts c m.ciphertext (tag_size alg) p u s in
                                    subst R (sym same)
                                      (of_cipher alg iv aad p.0 p.1 i joined fits refused))
                                  λ payload t h₈. cc
