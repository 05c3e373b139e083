-- ===== src/Tests/Witnesses/Headers.antt =====
-- The theorems on src/header_map.rs at small maps, and the data of two of the crate's tests.
use aws_nitro_enclaves_cose.Prelude.{pos, negsuc, [], ◌∷◌, ◌≡◌, ◌≢◌, refl, some}
use aws_nitro_enclaves_cose.Outcome.{ok, err}
use aws_nitro_enclaves_cose.OrderedMap
use aws_nitro_enclaves_cose.OrderedMap.Order.{IsSorted}
use aws_nitro_enclaves_cose.HeaderMap
use aws_nitro_enclaves_cose.HeaderMap.{HeaderMap}
use aws_nitro_enclaves_cose.HeaderMap.RoundTrip.{insert_lem}
use aws_nitro_enclaves_cose.Crypto.Algorithms.{es256, es384, es512, to_header_map}
use aws_nitro_enclaves_cose.Tests.Value.{int, cmp}
use aws_nitro_enclaves_cose.Tests.Cbor.{
  write, write_entries, write_value, read, read_entries, read_value,
}
use aws_nitro_enclaves_cose.Tests.Cbor.Heads.{write_head, read_head}
use aws_nitro_enclaves_cose.Tests.Format.{format, format-CborLaws}
use aws_nitro_enclaves_cose.Tests.Variants.{unnamed_header}

not_one : int (pos 3) ≢ int (pos 1)
not_one = λ e. cc

insert_lem_example :
    let after = HeaderMap.insert format (int (pos 1)) (int (negsuc 6)) unnamed_header in
    IsSorted cmp after.1
    × (after.0 ≡ HeaderMap.get format (int (pos 1)) unnamed_header)
    × (HeaderMap.get format (int (pos 1)) after.1 ≡ some (int (negsuc 6)))
    × (HeaderMap.get format (int (pos 3)) after.1
        ≡ HeaderMap.get format (int (pos 3)) unnamed_header)
insert_lem_example =
    insert_lem format format-CborLaws (int (pos 1)) (int (pos 3)) (int (negsuc 6)) unnamed_header
      not_one (tt, tt)

-- `map_serialization` of src/sign.rs.
map_serialization :
    (HeaderMap.map_to_empty_or_serialized format (to_header_map format es256)
      ≡ ok (0xa1 ∷ 1 ∷ 0x26 ∷ []))
    × (HeaderMap.map_to_empty_or_serialized format (to_header_map format es384)
        ≡ ok (0xa1 ∷ 1 ∷ 0x38 ∷ 0x22 ∷ []))
    × (HeaderMap.map_to_empty_or_serialized format (to_header_map format es512)
        ≡ ok (0xa1 ∷ 1 ∷ 0x38 ∷ 0x23 ∷ []))
unfolding HeaderMap.map_to_empty_or_serialized HeaderMap.is_empty OrderedMap.is_empty to_header_map
    OrderedMap.insert write write_head write_entries write_value
map_serialization = (refl, refl, refl)

-- `map_with_duplicates` of src/sign.rs, with small values: a key that stands twice is an error.
map_with_duplicates :
    HeaderMap.from_bytes format (0xa2 ∷ 1 ∷ 0x26 ∷ 1 ∷ 0 ∷ []) ≡ err "duplicate key"
unfolding HeaderMap.from_bytes HeaderMap.deserialize read read_head read_entries read_value
map_with_duplicates = refl
