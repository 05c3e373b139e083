-- ===== src/Encrypt/Cipher/Outcomes.antt =====
-- The errors with which `new` of src/encrypt.rs ends, and those of writing for the cipher.
use aws_nitro_enclaves_cose.Prelude.{
  ◌≢◌, ◌+◌, ◌*◌, ◌∷◌, pos, length, ℕ, arith, zero, Bytes, [], Option, none, some, ◌≡◌, refl, sym,
  replicate, Bool-cases, inl, inr,
}
use mathlib.Core.Path.{subst}
use aws_nitro_enclaves_cose.Outcome.{
  ok, err, map_err, map_err-eq-ok, map_err-eq-err, Outcome, ok_or, ok_or-eq-ok, unwrap,
}
use aws_nitro_enclaves_cose.Call.{lift, err-elim}
use aws_nitro_enclaves_cose.Error.{CoseError, serialization_error, encryption_error, cose}
use aws_nitro_enclaves_cose.Serde.{Cbor, Item, entries}
use aws_nitro_enclaves_cose.HeaderMap
use aws_nitro_enclaves_cose.HeaderMap.{HeaderMap}
use aws_nitro_enclaves_cose.Crypto.Algorithms.{
  CoseAlgorithm, gcm, value, cose_alg, iv_len, tag_size, to_encryption_algorithm,
}
use aws_nitro_enclaves_cose.Crypto.Algorithms.Laws.{cose_alg-eq-some_iff}
use aws_nitro_enclaves_cose.OrderedMap
use aws_nitro_enclaves_cose.Crypto.Traits.{Entropy, Encryption}
use aws_nitro_enclaves_cose.Encrypt.Structure
use aws_nitro_enclaves_cose.Encrypt.Structure.{enc_structure}
use aws_nitro_enclaves_cose.Encrypt.Cipher.{
  new, protected_map, enc_structure_bytes, unsupported_algorithm,
}

ok_or-eq-err :
    {E A : Type 0} (e : E) (o : Option A) {f : E} → ok_or e o ≡ err f → (o ≡ none) × (f ≡ e)
ok_or-eq-err e (some x) h = cc
ok_or-eq-err e none h = (refl, cc)

unwrap-not_err : {E A P : Type 0} (o : Option A) {e : E} → unwrap o ≡ err e → P
unwrap-not_err (some a) h = cc
unwrap-not_err none h = cc

pub iv_len_12 :
    {X : Type 0} (a : CoseAlgorithm) {n : ℕ} → unwrap {E = CoseError X} (iv_len a) ≡ ok n → n ≡ 12
unfolding iv_len
iv_len_12 a e = ground arith

pub size_16 : (a : CoseAlgorithm) → tag_size a ≡ 16
unfolding tag_size
size_16 a = ground arith

module _ {X V : Type 0} (c : Cbor X V) where
  -- Writing a header map ends in an error only where the format does not write its entries.
  pub map_to_empty_or_serialized-Unwritten :
      (header : HeaderMap V) {x : X}
      → HeaderMap.map_to_empty_or_serialized c header ≡ err x
      → c.to_vec (entries header) ≡ err x
  unfolding HeaderMap.map_to_empty_or_serialized
  map_to_empty_or_serialized-Unwritten header {x} h =
      elim (Bool-cases (HeaderMap.is_empty header)) [
        | inl empty ↦
            let h' : ok [] ≡ err x = (rw (HeaderMap.map_to_empty_or_serialized, empty) at h) in cc
        | inr full ↦ (rw (HeaderMap.map_to_empty_or_serialized, full) at h)
      ]

  pub enc_structure_bytes-Unwritten :
      (protected : Bytes) {e : CoseError X}
      → enc_structure_bytes c protected ≡ err e
      → (x : X) × (c.to_vec (enc_structure protected) ≡ err x) × (e ≡ serialization_error x)
  unfolding enc_structure_bytes Structure.new_encrypt0 Structure.as_bytes Structure.serialize
  enc_structure_bytes-Unwritten protected h = map_err-eq-err _ _ h

  written_structure :
      (protected : Bytes) {b : Bytes}
      → enc_structure_bytes c protected ≡ ok b
      → c.to_vec (enc_structure protected) ≡ ok b
  unfolding enc_structure_bytes Structure.new_encrypt0 Structure.as_bytes Structure.serialize
  written_structure protected h = map_err-eq-ok _ _ h

  -- The header map that names an algorithm.
  abbrev pub named : CoseAlgorithm → Item V
  named alg = entries ((c.of_integer (pos 1), c.of_integer (pos (value alg))) ∷ [])

  unwritten_map :
      (alg : CoseAlgorithm) {x : X}
      → HeaderMap.map_to_empty_or_serialized c (protected_map c alg) ≡ err x
      → c.to_vec (named alg) ≡ err x
  unfolding protected_map HeaderMap.insert OrderedMap.insert
  unwritten_map alg h = map_to_empty_or_serialized-Unwritten (protected_map c alg) h

  written_map :
      (alg : CoseAlgorithm) {b : Bytes}
      → HeaderMap.map_to_empty_or_serialized c (protected_map c alg) ≡ ok b
      → c.to_vec (named alg) ≡ ok b
  unfolding protected_map HeaderMap.insert OrderedMap.insert HeaderMap.map_to_empty_or_serialized
      HeaderMap.is_empty OrderedMap.is_empty
  written_map alg h = h

  module _ {W : Type 0} (entropy : Entropy X W) (encryption : Encryption X) where
    -- Why nothing is encrypted, with the error that says so. Each reason comes after the parts that
    -- have to succeed before it.
    pub data IsNotEncrypted (payload key : Bytes) (w : W) : CoseError X → Type 0 where
      wrong_length :
          length key ≢ 16
          → length key ≢ 24
          → length key ≢ 32
          → IsNotEncrypted payload key w unsupported_algorithm
      of_entropy :
          {e : CoseError X} (alg : CoseAlgorithm)
          → length key ≡ 8 + 8 * value alg
          → (entropy.rand_bytes (replicate 12 zero) w).0 ≡ err e
          → IsNotEncrypted payload key w e
      map_unwritten :
          {x : X} (alg : CoseAlgorithm)
          → length key ≡ 8 + 8 * value alg
          → c.to_vec (named alg) ≡ err x
          → IsNotEncrypted payload key w (serialization_error x)
      structure_unwritten :
          {x : X} (alg : CoseAlgorithm) (protected : Bytes)
          → length key ≡ 8 + 8 * value alg
          → c.to_vec (named alg) ≡ ok protected
          → c.to_vec (enc_structure protected) ≡ err x
          → IsNotEncrypted payload key w (serialization_error x)
      of_cipher :
          {e : CoseError X} (alg : CoseAlgorithm) (iv protected aad : Bytes)
          → length key ≡ 8 + 8 * value alg
          → (entropy.rand_bytes (replicate 12 zero) w).0 ≡ ok iv
          → c.to_vec (named alg) ≡ ok protected
          → c.to_vec (enc_structure protected) ≡ ok aad
          → encryption.encrypt_aead
              (to_encryption_algorithm alg)
              key
              (some iv)
              aad
              payload
              (replicate 16 zero)
            ≡ err e
          → IsNotEncrypted payload key w (encryption_error (cose e))

    no_cipher :
        (payload key : Bytes) (w : W)
        → cose_alg gcm key ≡ none
        → IsNotEncrypted payload key w unsupported_algorithm
    unfolding cose_alg
    no_cipher payload key w absent = wrong_length (ground arith) (ground arith) (ground arith)

    -- Every error of `new` says why: the key is not 16, 24 or 32 bytes long, the generator failed, the
    -- header map or the Enc_structure cannot be written, or the cipher failed on just this input. Only
    -- the generator's error is passed on as it is.
    pub new-IsNotEncrypted :
        (payload key : Bytes) (w : W) (e : CoseError X)
        → (new c entropy encryption payload gcm key w).0 ≡ err e
        → IsNotEncrypted payload key w e
    unfolding new
    new-IsNotEncrypted payload key w e h =
        let R = IsNotEncrypted payload key w in
        err-elim (lift (ok_or unsupported_algorithm (cose_alg gcm key))) _ w h
          (λ a.
            let (absent, same) = ok_or-eq-err _ _ a in
            subst R (sym same) (no_cipher payload key w absent))
          λ alg a h₁.
            let fits = (cose_alg-eq-some_iff key alg).0 (ok_or-eq-ok unsupported_algorithm _ a) in
            err-elim (lift (unwrap (iv_len alg))) _ w h₁ (unwrap-not_err _) λ len l h₂.
              let P = λ (z : Outcome (CoseError X) Bytes) (n : ℕ).
                (entropy.rand_bytes (replicate n zero) w).0 ≡ z in
              let len_is = iv_len_12 alg l in
              err-elim (entropy.rand_bytes (replicate len zero)) _ w h₂
                (λ r. of_entropy alg fits (subst (P (err e)) len_is r))
                λ iv r h₃.
                  let w' = (entropy.rand_bytes (replicate len zero) w).1 in
                  err-elim
                    (lift (
                      map_err serialization_error
                        (HeaderMap.map_to_empty_or_serialized c (protected_map c alg))))
                    _ w' h₃
                    (λ p.
                      let (x, unmade, same) = map_err-eq-err _ _ p in
                      subst R (sym same) (map_unwritten alg fits (unwritten_map alg unmade)))
                    λ b p h₄.
                      let made = written_map alg (map_err-eq-ok _ _ p) in
                      err-elim (lift (enc_structure_bytes c b)) _ w' h₄
                        (λ s.
                          let (x, u, same) = enc_structure_bytes-Unwritten b s in
                          subst R (sym same) (structure_unwritten alg b fits made u))
                        λ aad s h₅.
                          err-elim
                            (lift (
                              map_err (λ x. encryption_error (cose x))
                                (encryption.encrypt_aead (to_encryption_algorithm alg) key (some iv)
                                  aad payload (replicate (tag_size alg) zero))))
                            _ w' h₅
                            (λ t.
                              let (x, failed, same) = map_err-eq-err _ _ t in
                              subst R (sym same) (
                                of_cipher alg iv b aad fits (subst (P (ok iv)) len_is r) made
                                  (written_structure b s)
                                  (subst
                                    (λ (n : ℕ).
                                      encryption.encrypt_aead (to_encryption_algorithm alg) key
                                        (some iv) aad payload (replicate n zero)
                                      ≡ err x)
                                    (size_16 alg) failed)))
                            λ parts t h₆. cc
