-- ===== src/Encrypt/Decrypt/Refused.antt =====
-- Where `decrypt` and `new` of src/encrypt.rs refuse their input, and where `decrypt` panics.
use aws_nitro_enclaves_cose.Prelude.{
  ℤ, pos, ◌<◌, Bytes, none, some, ◌≡◌, ◌≢◌, arith, length, Option-cases, inl, inr,
}
use aws_nitro_enclaves_cose.Prelude.Int.{as_i8, low_byte}
use aws_nitro_enclaves_cose.Outcome.{ok, err, panic}
use aws_nitro_enclaves_cose.Error.{CoseError, specification_error}
use aws_nitro_enclaves_cose.Serde.{Cbor, integer}
use aws_nitro_enclaves_cose.HeaderMap
use aws_nitro_enclaves_cose.HeaderMap.{HeaderMap}
use aws_nitro_enclaves_cose.Crypto.Algorithms.{CoseAlgorithm, gcm, cose_alg, value, from_value}
use aws_nitro_enclaves_cose.Crypto.Algorithms.Laws.{from_value-as_i8_iff}
use aws_nitro_enclaves_cose.Crypto.Traits.{Decryption, Encryption, Entropy}
use aws_nitro_enclaves_cose.Sign.Signing.Verify.{integer_of}
use aws_nitro_enclaves_cose.Encrypt.Message.{CoseEncrypt0}
use aws_nitro_enclaves_cose.Encrypt.Cipher.{
  unsupported_algorithm, new, encryption_algorithm, initialization_vector,
}
use aws_nitro_enclaves_cose.Encrypt.Cipher.Outcomes.{size_16}
use aws_nitro_enclaves_cose.Encrypt.Decrypt.{decrypt}

abbrev pub invalid_algorithm : {X : Type 0} → CoseError X
invalid_algorithm =
    specification_error "Protected Header contains invalid Encryption Algorithm specification"

module _ {X V : Type 0} (c : Cbor X V) (header : HeaderMap V) where
  no_entry :
      HeaderMap.get c (c.of_integer (pos 1)) header ≡ none
      → encryption_algorithm c header ≡ err invalid_algorithm
  unfolding encryption_algorithm
  no_entry absent = ground arith

  no_integer :
      (v : V)
      → HeaderMap.get c (c.of_integer (pos 1)) header ≡ some v
      → ((z : ℤ) → c.view v ≢ integer z)
      → encryption_algorithm c header ≡ err invalid_algorithm
  unfolding encryption_algorithm
  no_integer v found n = ground (arith, n (integer_of (c.view v)))

  no_value :
      (v : V) (z : ℤ)
      → HeaderMap.get c (c.of_integer (pos 1)) header ≡ some v
      → c.view v ≡ integer z
      → ((a : CoseAlgorithm) → low_byte z ≢ value a)
      → encryption_algorithm c header ≡ err unsupported_algorithm
  unfolding encryption_algorithm
  no_value v z found view n = elim (Option-cases (from_value (as_i8 z))) [
    | inl unknown ↦ ground arith
    | inr (a, known) ↦ absurd (n a ((from_value-as_i8_iff z a).0 known))
  ]

module _ {X V : Type 0} (c : Cbor X V) where
  -- A readable message whose ciphertext is shorter than a tag makes `decrypt` panic: the length of
  -- the tag is subtracted unchecked.
  pub decrypt_short :
      (decryption : Decryption X) (m : CoseEncrypt0 V) (key : Bytes) (header : HeaderMap V)
      (alg : CoseAlgorithm) (b iv : Bytes)
      → HeaderMap.from_bytes c m.protected ≡ ok header
      → encryption_algorithm c header ≡ ok alg
      → HeaderMap.map_to_empty_or_serialized c header ≡ ok b
      → initialization_vector c m.unprotected ≡ ok iv
      → length m.ciphertext < 16
      → decrypt c decryption m key ≡ panic
  unfolding decrypt
  decrypt_short decryption m key header alg b iv r a w i short =
      rw (r, a, w, i) (ground (arith, size_16 alg))

  -- A header map with no entry for key 1 is a specification error, before the cipher is used.
  pub decrypt_no_algorithm :
      (decryption : Decryption X) (m : CoseEncrypt0 V) (key : Bytes) (header : HeaderMap V)
      → HeaderMap.from_bytes c m.protected ≡ ok header
      → HeaderMap.get c (c.of_integer (pos 1)) header ≡ none
      → decrypt c decryption m key ≡ err invalid_algorithm
  unfolding decrypt
  decrypt_no_algorithm decryption m key header r absent = rw (r, no_entry c header absent)

  -- So is a header map whose entry for key 1 is no integer.
  pub decrypt_not_integer :
      (decryption : Decryption X) (m : CoseEncrypt0 V) (key : Bytes) (header : HeaderMap V) (v : V)
      → HeaderMap.from_bytes c m.protected ≡ ok header
      → HeaderMap.get c (c.of_integer (pos 1)) header ≡ some v
      → ((z : ℤ) → c.view v ≢ integer z)
      → decrypt c decryption m key ≡ err invalid_algorithm
  unfolding decrypt
  decrypt_not_integer decryption m key header v r found n = rw (r, no_integer c header v found n)

  -- An integer for key 1 whose low eight bits are the value of no algorithm is an unsupported
  -- algorithm.
  pub decrypt_unknown_algorithm :
      (decryption : Decryption X) (m : CoseEncrypt0 V) (key : Bytes) (header : HeaderMap V) (v : V)
      (z : ℤ)
      → HeaderMap.from_bytes c m.protected ≡ ok header
      → HeaderMap.get c (c.of_integer (pos 1)) header ≡ some v
      → c.view v ≡ integer z
      → ((a : CoseAlgorithm) → low_byte z ≢ value a)
      → decrypt c decryption m key ≡ err unsupported_algorithm
  unfolding decrypt
  decrypt_unknown_algorithm decryption m key header v z r found view n =
      rw (r, no_value c header v z found view n)

  -- Protected bytes that hold the same header map are interchangeable, however they encode it: what
  -- is authenticated is the map as it is written anew, not the bytes that came with the message.
  pub decrypt_protected :
      (decryption : Decryption X) (m : CoseEncrypt0 V) (key p : Bytes)
      → HeaderMap.from_bytes c p ≡ HeaderMap.from_bytes c m.protected
      → decrypt c decryption (record m { protected = p }) key ≡ decrypt c decryption m key
  unfolding decrypt
  decrypt_protected decryption m key p same = rw same

  -- `new` refuses every key that is not 16, 24 or 32 bytes long, before it draws any randomness.
  pub new_unsupported :
      {W : Type 0} (entropy : Entropy X W) (encryption : Encryption X) (payload key : Bytes) (w : W)
      → length key ≢ 16
      → length key ≢ 24
      → length key ≢ 32
      → new c entropy encryption payload gcm key w ≡ (err unsupported_algorithm, w)
  unfolding new cose_alg
  new_unsupported entropy encryption payload key w a b d = ground arith
