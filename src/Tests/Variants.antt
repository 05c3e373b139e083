-- ===== src/Tests/Variants.antt =====
-- Signed messages with other protected maps and tags.
use aws_nitro_enclaves_cose.Prelude.{
  pos, negsuc, String, false, Bytes, [], ◌∷◌, ◌≡◌, refl, some, none,
}
use aws_nitro_enclaves_cose.Outcome.{Outcome, ok}
use aws_nitro_enclaves_cose.Error.{CoseError}
use aws_nitro_enclaves_cose.OrderedMap
use aws_nitro_enclaves_cose.Serde.{tagged}
use aws_nitro_enclaves_cose.HeaderMap
use aws_nitro_enclaves_cose.HeaderMap.{HeaderMap}
use aws_nitro_enclaves_cose.Crypto.Algorithms.{key_length, suggested_message_digest}
use aws_nitro_enclaves_cose.Crypto.Signature.{merge_ec_signature, copy_from_slice}
use aws_nitro_enclaves_cose.Crypto.OpensslPkey
use aws_nitro_enclaves_cose.Sign.Message.{CoseSign1, serialize}
use aws_nitro_enclaves_cose.Sign.Structure
use aws_nitro_enclaves_cose.Sign.Signing.{new_with_protected}
use aws_nitro_enclaves_cose.Tests.Value.{Value, int}
use aws_nitro_enclaves_cose.Tests.Cbor.{write, write_items, write_value, write_entries}
use aws_nitro_enclaves_cose.Tests.Cbor.Heads.{write_head}
use aws_nitro_enclaves_cose.Tests.Format.{format}
use aws_nitro_enclaves_cose.Tests.Keys.{p256_key, sum_hash}
use aws_nitro_enclaves_cose.Tests.Signed.{payload, message, header, untagged_bytes}

abbrev pub made : HeaderMap Value → Outcome (CoseError String) (CoseSign1 Value)
made protected = (new_with_protected format sum_hash p256_key payload protected [] 0).0

-- A protected map without `alg`.
abbrev pub unnamed_header : HeaderMap Value
unnamed_header = (int (pos 3), int (pos 0)) ∷ []

abbrev pub unnamed_message : CoseSign1 Value
unnamed_message = record message { protected = 0xa1 ∷ 3 ∷ 0 ∷ [] }

pub unnamed_signed : made unnamed_header ≡ ok unnamed_message
unfolding new_with_protected OpensslPkey.get_parameters OpensslPkey.curve_of
    OpensslPkey.ec_curve_to_parameters OpensslPkey.curve_algorithm OpensslPkey.sign
    HeaderMap.map_to_empty_or_serialized HeaderMap.is_empty OrderedMap.is_empty
    Structure.struct_digest Structure.new_sign1 Structure.as_bytes Structure.serialize
    merge_ec_signature copy_from_slice key_length suggested_message_digest write write_items
    write_head write_entries write_value
unnamed_signed = refl

pub unnamed_full : HeaderMap.is_empty unnamed_header ≡ false
unfolding HeaderMap.is_empty OrderedMap.is_empty
unnamed_full = refl

pub unnamed_alg : HeaderMap.get format (int (pos 1)) unnamed_header ≡ none
unfolding HeaderMap.get OrderedMap.get
unnamed_alg = refl

pub unnamed_written :
    HeaderMap.map_to_empty_or_serialized format unnamed_header ≡ ok unnamed_message.protected
unfolding HeaderMap.map_to_empty_or_serialized HeaderMap.is_empty OrderedMap.is_empty write
    write_head write_entries write_value
unnamed_written = refl

-- An empty protected map.
abbrev pub empty_message : CoseSign1 Value
empty_message = record message { protected = [] }

pub empty_signed : made HeaderMap.new ≡ ok empty_message
unfolding new_with_protected OpensslPkey.get_parameters OpensslPkey.curve_of
    OpensslPkey.ec_curve_to_parameters OpensslPkey.curve_algorithm OpensslPkey.sign
    HeaderMap.map_to_empty_or_serialized HeaderMap.is_empty OrderedMap.is_empty
    Structure.struct_digest Structure.new_sign1 Structure.as_bytes Structure.serialize
    merge_ec_signature copy_from_slice key_length suggested_message_digest write write_items
    write_head write_entries write_value
empty_signed = refl

pub header_alg : HeaderMap.get format (int (pos 1)) header ≡ some (int (negsuc 6))
unfolding HeaderMap.get OrderedMap.get
header_alg = refl

abbrev pub twice_tagged : Bytes
twice_tagged = 0xd2 ∷ 0xd0 ∷ untagged_bytes

pub write_twice_tagged : format.to_vec (tagged 18 (tagged 16 (serialize message))) ≡ ok twice_tagged
unfolding serialize write write_items write_head write_entries
write_twice_tagged = refl
