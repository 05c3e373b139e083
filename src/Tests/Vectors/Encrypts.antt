-- ===== src/Tests/Vectors/Encrypts.antt =====
-- The tests of src/encrypt.rs, with a cipher that hides nothing. A text header has no place in the
-- test format: test_decrypt_invalid_alg_spec is run with a byte string.
use aws_nitro_enclaves_cose.Prelude.{pos, Bytes, [], ◌∷◌, ◌++◌, ◌≡◌, refl, replicate}
use aws_nitro_enclaves_cose.Prelude.Int.{as_i8}
use aws_nitro_enclaves_cose.Outcome.{ok, err}
use aws_nitro_enclaves_cose.Error.{specification_error}
use aws_nitro_enclaves_cose.OrderedMap
use aws_nitro_enclaves_cose.OrderedMap.Entries.{insert_all}
use aws_nitro_enclaves_cose.HeaderMap
use aws_nitro_enclaves_cose.HeaderMap.{HeaderMap}
use aws_nitro_enclaves_cose.Crypto.Algorithms.{gcm, cose_alg, iv_len, tag_size, value, from_value}
use aws_nitro_enclaves_cose.Encrypt.Structure
use aws_nitro_enclaves_cose.Encrypt.Message.{CoseEncrypt0}
use aws_nitro_enclaves_cose.Encrypt.Cipher.{
  new, protected_map, unprotected_map, enc_structure_bytes, encryption_algorithm,
  initialization_vector, unsupported_algorithm,
}
use aws_nitro_enclaves_cose.Encrypt.Decrypt.{decrypt}
use aws_nitro_enclaves_cose.Tests.Value.{Value, int, blob}
use aws_nitro_enclaves_cose.Tests.Cbor.{
  write, write_value, write_entries, read, read_entries, read_value,
}
use aws_nitro_enclaves_cose.Tests.Cbor.Heads.{write_head, read_head}
use aws_nitro_enclaves_cose.Tests.Format.{format}
use aws_nitro_enclaves_cose.Tests.Keys.{clear_encryption, clear_decryption, zeros}

abbrev key : Bytes
key = 0 ∷ 1 ∷ 2 ∷ 3 ∷ 4 ∷ 5 ∷ 6 ∷ 7 ∷ 8 ∷ 9 ∷ 10 ∷ 11 ∷ 12 ∷ 13 ∷ 14 ∷ 15 ∷ []

abbrev plaintext : Bytes
plaintext =
    0x12 ∷ 0x34 ∷ 0x56 ∷ 0x78 ∷ 0x90 ∷ 0x12 ∷ 0x34 ∷ 0x56 ∷ 0x12 ∷ 0x34 ∷ 0x56 ∷ 0x78 ∷ 0x90 ∷ 0x12
    ∷ 0x34 ∷ 0x56 ∷ []

abbrev sealed : CoseEncrypt0 Value
sealed = record {
  protected = 0xa1 ∷ 1 ∷ 1 ∷ [];
  unprotected = (int (pos 5), blob (replicate 12 0)) ∷ [];
  ciphertext = plaintext ++ replicate 16 7;
}

test_encrypt : (new format zeros clear_encryption plaintext gcm key 0).0 ≡ ok sealed
unfolding new cose_alg iv_len HeaderMap.map_to_empty_or_serialized HeaderMap.is_empty
    OrderedMap.is_empty protected_map HeaderMap.insert OrderedMap.insert enc_structure_bytes
    Structure.new_encrypt0 Structure.as_bytes write unprotected_map tag_size write_head
    write_entries write_value value
test_encrypt = refl

test_encrypt_unsupported_alg :
    (new format zeros clear_encryption plaintext gcm (key ++ 0x56 ∷ 0x56 ∷ []) 0).0
    ≡ err unsupported_algorithm
unfolding new cose_alg
test_encrypt_unsupported_alg = refl

-- `{1: 42}`
test_decrypt_unsupported_cipher :
    decrypt format clear_decryption (record sealed { protected = 0xa1 ∷ 1 ∷ 0x18 ∷ 42 ∷ [] }) key
    ≡ err unsupported_algorithm
unfolding decrypt HeaderMap.from_bytes HeaderMap.deserialize insert_all OrderedMap.insert read
    read_head read_entries read_value encryption_algorithm HeaderMap.get OrderedMap.get from_value
    as_i8
test_decrypt_unsupported_cipher = refl

-- `{1: 'in'}`
test_decrypt_invalid_alg :
    decrypt format clear_decryption
      (record sealed { protected = 0xa1 ∷ 1 ∷ 0x42 ∷ 0x69 ∷ 0x6e ∷ [] })
      key
    ≡ err
        (specification_error "Protected Header contains invalid Encryption Algorithm specification")
unfolding decrypt HeaderMap.from_bytes HeaderMap.deserialize insert_all OrderedMap.insert read
    read_head read_entries read_value encryption_algorithm HeaderMap.get OrderedMap.get from_value
    as_i8
test_decrypt_invalid_alg = refl

-- `{5: 42}`
test_decrypt_invalid_iv :
    decrypt format clear_decryption
      (record sealed { unprotected = (int (pos 5), int (pos 42)) ∷ [] })
      key
    ≡ err (specification_error "Unprotected Header contains invalid IV specification")
unfolding decrypt HeaderMap.from_bytes HeaderMap.deserialize insert_all OrderedMap.insert read
    read_head read_entries read_value encryption_algorithm HeaderMap.get OrderedMap.get from_value
    as_i8 initialization_vector HeaderMap.map_to_empty_or_serialized HeaderMap.is_empty
    OrderedMap.is_empty write write_head write_entries write_value
test_decrypt_invalid_iv = refl
