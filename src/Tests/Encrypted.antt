-- ===== src/Tests/Encrypted.antt =====
-- An encrypted message of the test format, as src/encrypt.rs makes it.
use aws_nitro_enclaves_cose.Prelude.{pos, true, Bytes, [], ◌∷◌, ◌++◌, ◌≡◌, refl, replicate}
use aws_nitro_enclaves_cose.Prelude.Int.{as_i8}
use aws_nitro_enclaves_cose.Outcome.{ok, err}
use aws_nitro_enclaves_cose.Error.{serialization_error}
use aws_nitro_enclaves_cose.OrderedMap
use aws_nitro_enclaves_cose.OrderedMap.Entries.{insert_all}
use aws_nitro_enclaves_cose.HeaderMap
use aws_nitro_enclaves_cose.HeaderMap.{HeaderMap}
use aws_nitro_enclaves_cose.Crypto.Algorithms.{
  aes_gcm_96_128_128, gcm, cose_alg, iv_len, tag_size, value, from_value,
}
use aws_nitro_enclaves_cose.Encrypt.Structure
use aws_nitro_enclaves_cose.Encrypt.Message.{CoseEncrypt0, as_bytes, serialize}
use aws_nitro_enclaves_cose.Encrypt.Cipher.{
  new, protected_map, unprotected_map, enc_structure_bytes, encryption_algorithm,
  initialization_vector,
}
use aws_nitro_enclaves_cose.Encrypt.Decrypt.{decrypt}
use aws_nitro_enclaves_cose.Encrypt.Decrypt.Outcomes.{invalid_iv}
use aws_nitro_enclaves_cose.Tests.Value.{Value, int, blob}
use aws_nitro_enclaves_cose.Tests.Cbor.{
  write, write_items, write_value, write_entries, read, read_entries, read_value,
}
use aws_nitro_enclaves_cose.Tests.Cbor.Heads.{write_head, read_head}
use aws_nitro_enclaves_cose.Tests.Format.{format}
use aws_nitro_enclaves_cose.Tests.Keys.{clear_encryption, clear_decryption, zeros}

abbrev pub payload : Bytes
payload = 1 ∷ 2 ∷ 3 ∷ []

abbrev pub key : Bytes
key = replicate 16 9

abbrev pub message : CoseEncrypt0 Value
message = record {
  protected = 0xa1 ∷ 1 ∷ 1 ∷ [];
  unprotected = (int (pos 5), blob (replicate 12 0)) ∷ [];
  ciphertext = 1 ∷ 2 ∷ 3 ∷ replicate 16 7;
}

pub message_encrypted : (new format zeros clear_encryption payload gcm key 0).0 ≡ ok message
unfolding new cose_alg iv_len HeaderMap.map_to_empty_or_serialized HeaderMap.is_empty
    OrderedMap.is_empty protected_map HeaderMap.insert OrderedMap.insert enc_structure_bytes
    Structure.new_encrypt0 Structure.as_bytes write unprotected_map tag_size write_head
    write_entries write_value value
message_encrypted = refl

abbrev pub untagged_bytes : Bytes
untagged_bytes =
    0x83 ∷ 0x43 ∷ 0xa1 ∷ 1 ∷ 1 ∷ 0xa1 ∷ 5 ∷ 0x4c ∷ replicate 12 0
    ++ 0x53 ∷ 1 ∷ 2 ∷ 3 ∷ replicate 16 7

abbrev pub tagged_bytes : Bytes
tagged_bytes = 0xd0 ∷ untagged_bytes

pub as_bytes_tagged : as_bytes format message true ≡ ok tagged_bytes
unfolding as_bytes serialize write write_head write_items write_entries write_value
as_bytes_tagged = refl

abbrev pub header : HeaderMap Value
header = (int (pos 1), int (pos 1)) ∷ []

pub header_read : HeaderMap.from_bytes format message.protected ≡ ok header
unfolding HeaderMap.from_bytes HeaderMap.deserialize insert_all OrderedMap.insert read read_head
    read_entries read_value
header_read = refl

pub header_alg : encryption_algorithm format header ≡ ok aes_gcm_96_128_128
unfolding encryption_algorithm HeaderMap.get OrderedMap.get from_value as_i8
header_alg = refl

pub iv_found : initialization_vector format message.unprotected ≡ ok (replicate 12 0)
unfolding initialization_vector HeaderMap.get OrderedMap.get
iv_found = refl

-- The protected bytes of the message with the integer 1 in its long form.
abbrev pub long_protected : Bytes
long_protected = 0xa1 ∷ 1 ∷ 0x18 ∷ 1 ∷ []

pub long_read :
    HeaderMap.from_bytes format long_protected ≡ HeaderMap.from_bytes format message.protected
unfolding HeaderMap.from_bytes HeaderMap.deserialize insert_all OrderedMap.insert read read_head
    read_entries read_value
long_read = refl

-- A ciphertext of three bytes.
abbrev pub short_message : CoseEncrypt0 Value
short_message = record message { ciphertext = payload }

-- The message with no IV.
abbrev pub without_iv : CoseEncrypt0 Value
without_iv = record message { unprotected = [] }

pub without_iv_refused : decrypt format clear_decryption without_iv key ≡ err invalid_iv
unfolding decrypt HeaderMap.from_bytes HeaderMap.deserialize insert_all OrderedMap.insert read
    read_head read_entries read_value encryption_algorithm HeaderMap.get OrderedMap.get from_value
    as_i8 initialization_vector HeaderMap.map_to_empty_or_serialized HeaderMap.is_empty
    OrderedMap.is_empty write write_head write_entries write_value
without_iv_refused = refl

-- A header of three bytes is more than the format writes.
unwritable :
    as_bytes format (record message { unprotected = (int (pos 1), int (pos 65536)) ∷ [] }) true
    ≡ err (serialization_error "not writable")
unfolding as_bytes serialize
unwritable = refl
