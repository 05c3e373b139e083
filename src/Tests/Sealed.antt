-- ===== src/Tests/Sealed.antt =====
-- A cipher that opens one sealing only, and a history in which it was made.
use mathlib.Core.List.Memᴰ.{head}
use aws_nitro_enclaves_cose.Prelude.{
  String, Bytes, Bool, true, false, [], ◌∷◌, some, none, Option, some-injective, ◌≡◌, refl, sym,
  ◌∙◌, ap, replicate, Bool-cases, inl, inr,
}
use aws_nitro_enclaves_cose.Outcome.{Outcome, ok, err, ok-injective}
use aws_nitro_enclaves_cose.Error.{CoseError, unimplemented_error}
use aws_nitro_enclaves_cose.OrderedMap
use aws_nitro_enclaves_cose.HeaderMap
use aws_nitro_enclaves_cose.Crypto.Algorithms.{
  EncryptionAlgorithm, aes128_gcm, aes192_gcm, aes256_gcm, aes_gcm_96_128_128, gcm, cose_alg,
  iv_len, to_encryption_algorithm, tag_size, value,
}
use aws_nitro_enclaves_cose.Crypto.Traits.{Decryption}
use aws_nitro_enclaves_cose.Crypto.Signature.{split_at}
use aws_nitro_enclaves_cose.Encrypt.Structure
use aws_nitro_enclaves_cose.Encrypt.Cipher.{
  enc_structure_bytes, new, protected_map, initialization_vector,
}
use aws_nitro_enclaves_cose.Encrypt.Decrypt.{decrypt}
use aws_nitro_enclaves_cose.Encrypt.Decrypt.RoundTrip.{IsEncrypted, new-IsEncrypted}
use aws_nitro_enclaves_cose.Encrypt.Session.{
  Sealing, sealing_of, History, begin, sends, IsIdealCipher,
}
use aws_nitro_enclaves_cose.Tests.Cbor.{write, write_items, write_value, write_entries}
use aws_nitro_enclaves_cose.Tests.Cbor.Heads.{write_head}
use aws_nitro_enclaves_cose.Tests.Format.{format}
use aws_nitro_enclaves_cose.Tests.Keys.{clear_encryption, zeros}
use aws_nitro_enclaves_cose.Tests.Encrypted.{
  payload, key, message, message_encrypted, header, header_read, header_alg,
}
use aws_nitro_enclaves_cose.Tests.Ledger.{same_bytes, same_bytes-eq}

abbrev pub iv : Bytes
iv = replicate 12 0

abbrev pub aad : Bytes
aad =
    0x83 ∷ 0x68 ∷ 0x45 ∷ 0x6e ∷ 0x63 ∷ 0x72 ∷ 0x79 ∷ 0x70 ∷ 0x74 ∷ 0x30 ∷ 0x43 ∷ 0xa1 ∷ 1 ∷ 1 ∷ 0x40
    ∷ []

pub aad_written : enc_structure_bytes format message.protected ≡ ok aad
unfolding enc_structure_bytes Structure.new_encrypt0 Structure.as_bytes Structure.serialize write
    write_head write_items
aad_written = refl

abbrev opens : EncryptionAlgorithm → Bytes → Bytes → Bytes → Bool
opens aes128_gcm i a t = elim (same_bytes i iv) [
  | true ↦ elim (same_bytes a aad) [ true ↦ same_bytes t payload | false ↦ false ]
  | false ↦ false
]
opens _ i a t = false

abbrev release : Bool → Bytes → Outcome (CoseError String) Bytes
release true t = ok t
release false t = err unimplemented_error

abbrev try_open :
    EncryptionAlgorithm → Option Bytes → Bytes → Bytes → Outcome (CoseError String) Bytes
try_open a none d t = err unimplemented_error
try_open a (some i) d t = release (opens a i d t) t

abbrev pub strict_decryption : Decryption String
strict_decryption = record { decrypt_aead = λ a k i d t tag. try_open a i d t }

alg_known : cose_alg gcm key ≡ some aes_gcm_96_128_128
unfolding cose_alg
alg_known = refl

to_known : to_encryption_algorithm aes_gcm_96_128_128 ≡ aes128_gcm
unfolding to_encryption_algorithm
to_known = refl

abbrev pub sealing : Sealing
sealing = (aes128_gcm, iv, aad, payload)

sealing_same :
    (g : IsEncrypted format zeros 0 clear_encryption payload gcm key message)
    → sealing_of format zeros clear_encryption key g ≡ sealing
sealing_same g =
    let alg_is : aes_gcm_96_128_128 ≡ g.alg = some-injective (sym alg_known ∙ g.alg_of_key) in
    let a_is : aes128_gcm ≡ to_encryption_algorithm g.alg =
      sym to_known ∙ ap to_encryption_algorithm alg_is in
    let iv_is : iv ≡ g.iv = ok-injective g.iv_drawn in
    let aad_is : aad ≡ g.aad = ok-injective (sym aad_written ∙ g.aad_written) in
    sym (λ i. (a_is i, iv_is i, aad_is i, payload))

sealed_of_opens :
    (a : EncryptionAlgorithm) (i d t p : Bytes)
    → try_open a (some i) d t ≡ ok p
    → (a, i, d, p) ≡ sealing
sealed_of_opens aes128_gcm i d t p e = elim (Bool-cases (same_bytes i iv)) [
  | inl same_iv ↦ elim (Bool-cases (same_bytes d aad)) [
    | inl same_aad ↦ elim (Bool-cases (same_bytes t payload)) [
      | inl same_text ↦
          let t_is : t ≡ p =
            ok-injective (rw (try_open, opens, same_iv, same_aad, same_text) at e) in
          λ j. (
            aes128_gcm,
            same_bytes-eq i iv same_iv j,
            same_bytes-eq d aad same_aad j,
            (sym t_is ∙ same_bytes-eq t payload same_text) j,
          )
      | inr differs ↦
          let refused : release false t ≡ ok p =
            (rw (try_open, opens, same_iv, same_aad, differs) at e) in
          cc
    ]
    | inr differs ↦
        let refused : release false t ≡ ok p = (rw (try_open, opens, same_iv, differs) at e) in cc
  ]
  | inr differs ↦ let refused : release false t ≡ ok p = (rw (try_open, opens, differs) at e) in cc
]
sealed_of_opens aes192_gcm i d t p e = cc
sealed_of_opens aes256_gcm i d t p e = cc

-- The sender's history, one message long.
pub history :
    History format zeros clear_encryption key 0 1
      (sealing_of format zeros clear_encryption key (
          new-IsEncrypted format zeros clear_encryption payload gcm key 0 message message_encrypted)
        ∷ [])
      (record { payload = payload; message = message } ∷ [])
unfolding new cose_alg iv_len HeaderMap.map_to_empty_or_serialized HeaderMap.is_empty
    OrderedMap.is_empty protected_map HeaderMap.insert OrderedMap.insert enc_structure_bytes
    Structure.new_encrypt0 Structure.as_bytes value write write_items write_head write_entries
    write_value
history = sends payload gcm message message_encrypted begin

pub strict-IsIdealCipher : IsIdealCipher strict_decryption key (
    sealing_of format zeros clear_encryption key
      (new-IsEncrypted format zeros clear_encryption payload gcm key 0 message message_encrypted)
    ∷ [])
strict-IsIdealCipher = record {
  opens_sealed = λ a i d t tag p e. head (
      sealed_of_opens a i d t p e
      ∙ sym (
          sealing_same (
            new-IsEncrypted format zeros clear_encryption payload gcm key 0 message
              message_encrypted)));
}

pub strict_decrypted :
    decrypt format strict_decryption message key ≡ ok (header, message.unprotected, payload)
unfolding decrypt split_at tag_size HeaderMap.map_to_empty_or_serialized HeaderMap.is_empty
    OrderedMap.is_empty initialization_vector HeaderMap.get OrderedMap.get enc_structure_bytes
    Structure.new_encrypt0 Structure.as_bytes to_encryption_algorithm write write_head write_entries
    write_value
strict_decrypted = rw (header_read, header_alg) refl
