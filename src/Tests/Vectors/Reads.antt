-- ===== src/Tests/Vectors/Reads.antt =====
-- What `from_bytes` and `from_bytes_tagged` make of the documents of the tests in src/sign.rs.
use aws_nitro_enclaves_cose.Prelude.{[], ◌∷◌, ◌≡◌, refl, some, none}
use aws_nitro_enclaves_cose.Outcome.{ok, err}
use aws_nitro_enclaves_cose.Error.{tag_error}
use aws_nitro_enclaves_cose.OrderedMap
use aws_nitro_enclaves_cose.OrderedMap.Entries.{insert_all}
use aws_nitro_enclaves_cose.HeaderMap
use aws_nitro_enclaves_cose.Serde.{from_slice_tagged}
use aws_nitro_enclaves_cose.Sign.Message.{
  from_bytes, from_bytes_tagged, deserialize, visit_seq, element,
}
use aws_nitro_enclaves_cose.Tests.Cbor.{read, read_items, read_entries, read_value}
use aws_nitro_enclaves_cose.Tests.Cbor.Heads.{read_head}
use aws_nitro_enclaves_cose.Tests.Format.{format}
use aws_nitro_enclaves_cose.Tests.Vectors.{
  text, tampered_text, es256_signature, es384_signature, es512_signature, tampered_signature,
  es256_document, es384_document, es512_document, tampered_content_document,
  tampered_signature_document, invalid_tag_document, missing_tag_document, message,
}

pub es256_read :
    from_bytes format es256_document ≡ ok (message (0xa1 ∷ 1 ∷ 0x26 ∷ []) text es256_signature)
unfolding from_bytes deserialize visit_seq element HeaderMap.from_bytes HeaderMap.deserialize
    insert_all OrderedMap.insert read read_items read_head read_entries read_value from_slice_tagged
es256_read = refl

pub es384_read :
    from_bytes format es384_document
    ≡ ok (message (0xa1 ∷ 1 ∷ 0x38 ∷ 0x22 ∷ []) text es384_signature)
unfolding from_bytes deserialize visit_seq element HeaderMap.from_bytes HeaderMap.deserialize
    insert_all OrderedMap.insert read read_items read_head read_entries read_value from_slice_tagged
es384_read = refl

pub es512_read :
    from_bytes format es512_document
    ≡ ok (message (0xa1 ∷ 1 ∷ 0x38 ∷ 0x23 ∷ []) text es512_signature)
unfolding from_bytes deserialize visit_seq element HeaderMap.from_bytes HeaderMap.deserialize
    insert_all OrderedMap.insert read read_items read_head read_entries read_value from_slice_tagged
es512_read = refl

pub tampered_content_read :
    from_bytes format tampered_content_document
    ≡ ok (message (0xa1 ∷ 1 ∷ 0x26 ∷ []) tampered_text es256_signature)
unfolding from_bytes deserialize visit_seq element HeaderMap.from_bytes HeaderMap.deserialize
    insert_all OrderedMap.insert read read_items read_head read_entries read_value from_slice_tagged
tampered_content_read = refl

pub tampered_signature_read :
    from_bytes format tampered_signature_document
    ≡ ok (message (0xa1 ∷ 1 ∷ 0x26 ∷ []) text tampered_signature)
unfolding from_bytes deserialize visit_seq element HeaderMap.from_bytes HeaderMap.deserialize
    insert_all OrderedMap.insert read read_items read_head read_entries read_value from_slice_tagged
tampered_signature_read = refl

invalid_tag_refused : from_bytes format invalid_tag_document ≡ err (tag_error (some 19))
unfolding from_bytes deserialize visit_seq element HeaderMap.from_bytes HeaderMap.deserialize
    insert_all OrderedMap.insert read read_items read_head read_entries read_value from_slice_tagged
invalid_tag_refused = refl

missing_tag_refused : from_bytes_tagged format missing_tag_document ≡ err (tag_error none)
unfolding from_bytes_tagged deserialize visit_seq element HeaderMap.from_bytes HeaderMap.deserialize
    insert_all OrderedMap.insert read read_items read_head read_entries read_value from_slice_tagged
missing_tag_refused = refl
