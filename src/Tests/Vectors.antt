-- ===== src/Tests/Vectors.antt =====
-- The documents of the tests in src/sign.rs.
pub mod Reads
pub mod Validates
pub mod Travels
pub mod Encrypts
use aws_nitro_enclaves_cose.Prelude.{pos, Bytes, [], ◌∷◌, ◌++◌, codes}
use aws_nitro_enclaves_cose.HeaderMap.{HeaderMap}
use aws_nitro_enclaves_cose.Sign.Message.{CoseSign1}
use aws_nitro_enclaves_cose.Tests.Value.{Value, int, blob}

-- `TEXT`
abbrev pub text : Bytes
text =
    codes
      "It is a truth universally acknowledged, that a single man in possession of a good fortune, must be in want of a wife."

-- `TEXT` in the document of cose_sign1_ec256_tampered_content, in which one letter is another.
abbrev pub tampered_text : Bytes
tampered_text =
    codes
      "It is a truth uoiversally acknowledged, that a single man in possession of a good fortune, must be in want of a wife."

abbrev pub es256_signature : Bytes
es256_signature =
    0x6e ∷ 0x6d ∷ 0xf6 ∷ 0x54 ∷ 0x89 ∷ 0xea ∷ 0x3b ∷ 1 ∷ 0x88 ∷ 0x33 ∷ 0xf5 ∷ 0xfc ∷ 0x4f ∷ 0x84
    ∷ 0xf8 ∷ 0x1b ∷ 0x4d ∷ 0x5e ∷ 0xfd ∷ 0x5a ∷ 9 ∷ 0xd5 ∷ 0xc6 ∷ 0x2f ∷ 0x2e ∷ 0x92 ∷ 0x38 ∷ 0x5d
    ∷ 0xce ∷ 0x31 ∷ 0xe2 ∷ 0xd1 ∷ 0x5a ∷ 0x53 ∷ 0xa9 ∷ 0xf0 ∷ 0x75 ∷ 0xe8 ∷ 0xfb ∷ 0x39 ∷ 0x66
    ∷ 0x9f ∷ 0xcd ∷ 0x4e ∷ 0xb5 ∷ 0x22 ∷ 0xc8 ∷ 0x5c ∷ 0x92 ∷ 0x77 ∷ 0x45 ∷ 0x2f ∷ 0xa8 ∷ 0x57
    ∷ 0xf5 ∷ 0xfe ∷ 0x37 ∷ 0x9e ∷ 0xdd ∷ 0xef ∷ 0xf ∷ 0xab ∷ 0x3c ∷ 0xdd ∷ []

abbrev pub es384_signature : Bytes
es384_signature =
    0xcd ∷ 0x42 ∷ 0xd2 ∷ 0x76 ∷ 0x32 ∷ 0xd5 ∷ 0x41 ∷ 0x4e ∷ 0x4b ∷ 0x54 ∷ 0x5c ∷ 0x95 ∷ 0xfd ∷ 0xe6
    ∷ 0xe3 ∷ 0x50 ∷ 0x5b ∷ 0x93 ∷ 0x58 ∷ 0xf ∷ 0x4b ∷ 0x77 ∷ 0x31 ∷ 0xd1 ∷ 0x4a ∷ 0x86 ∷ 0x52 ∷ 0x31
    ∷ 0x75 ∷ 0x26 ∷ 0x6c ∷ 0xde ∷ 0xb2 ∷ 0x4a ∷ 0xff ∷ 0x2d ∷ 0xe3 ∷ 0x36 ∷ 0x4e ∷ 0x9c ∷ 0xee
    ∷ 0xe9 ∷ 0xf9 ∷ 0xf7 ∷ 0x95 ∷ 0xa0 ∷ 0x15 ∷ 0x15 ∷ 0x5b ∷ 0xc7 ∷ 0x12 ∷ 0xaa ∷ 0x28 ∷ 0x63
    ∷ 0xe2 ∷ 0xaa ∷ 0xf6 ∷ 7 ∷ 0x8a ∷ 0x81 ∷ 0x90 ∷ 0x93 ∷ 0xfd ∷ 0xfc ∷ 0x70 ∷ 0x59 ∷ 0xa3 ∷ 0xf1
    ∷ 0x46 ∷ 0x7f ∷ 0x64 ∷ 0xec ∷ 0x7e ∷ 0x22 ∷ 0x1f ∷ 0xd1 ∷ 0x63 ∷ 0xd8 ∷ 0xb ∷ 0x3b ∷ 0x55 ∷ 0x26
    ∷ 0x25 ∷ 0xcf ∷ 0x37 ∷ 0x9d ∷ 0x1c ∷ 0xbb ∷ 0x9e ∷ 0x51 ∷ 0x38 ∷ 0xcc ∷ 0xd0 ∷ 0x7a ∷ 0x19
    ∷ 0x31 ∷ []

abbrev pub es512_signature : Bytes
es512_signature =
    1 ∷ 0xe5 ∷ 0xae ∷ 0x6a ∷ 0xe6 ∷ 0xe2 ∷ 0xe3 ∷ 0xc0 ∷ 0xb5 ∷ 0x1d ∷ 0xd1 ∷ 0x62 ∷ 0x74 ∷ 0x1c
    ∷ 0xf9 ∷ 0x9d ∷ 0xa6 ∷ 0x88 ∷ 0x19 ∷ 0x5c ∷ 0xd9 ∷ 0xe ∷ 0x65 ∷ 0xfb ∷ 0xbe ∷ 0xe2 ∷ 0x38 ∷ 0x83
    ∷ 0x81 ∷ 0x32 ∷ 0x3c ∷ 0xae ∷ 0xc9 ∷ 0x1b ∷ 0x3d ∷ 0xe ∷ 0x3a ∷ 0xc1 ∷ 0x4d ∷ 0xb ∷ 0x8b ∷ 0x29
    ∷ 0xa8 ∷ 0x56 ∷ 0x2e ∷ 0xb2 ∷ 0x17 ∷ 0x65 ∷ 0x9f ∷ 0x27 ∷ 0xbe ∷ 0xb4 ∷ 0x30 ∷ 0xa1 ∷ 0xd7
    ∷ 0x4f ∷ 0x42 ∷ 0x35 ∷ 0x3a ∷ 0x2c ∷ 0xa ∷ 0xc5 ∷ 0x1f ∷ 0xc2 ∷ 0x36 ∷ 0x48 ∷ 0 ∷ 0 ∷ 0x89
    ∷ 0xea ∷ 0xf7 ∷ 9 ∷ 0x50 ∷ 0xf8 ∷ 0x45 ∷ 0x83 ∷ 0xa7 ∷ 0xc4 ∷ 0x79 ∷ 0x2f ∷ 0xad ∷ 0xc6 ∷ 0x96
    ∷ 0xc3 ∷ 3 ∷ 0x33 ∷ 0xf2 ∷ 0xdf ∷ 0x19 ∷ 0x48 ∷ 0x83 ∷ 0x93 ∷ 0xab ∷ 0xae ∷ 0x31 ∷ 0x6a ∷ 0x2e
    ∷ 0x17 ∷ 0x1d ∷ 0x58 ∷ 0x87 ∷ 0x65 ∷ 0xc4 ∷ 0x36 ∷ 0xa2 ∷ 0xa2 ∷ 5 ∷ 0xad ∷ 0x81 ∷ 0x51 ∷ 0xf3
    ∷ 0x97 ∷ 0x3e ∷ 0xc0 ∷ 0xb4 ∷ 0xa7 ∷ 0xb8 ∷ 0x97 ∷ 0xe4 ∷ 0x90 ∷ 0x8c ∷ 0x79 ∷ 0x6f ∷ 0x85
    ∷ 0x24 ∷ 0x84 ∷ 0xae ∷ 0x39 ∷ 0x26 ∷ 0xb3 ∷ 0xb8 ∷ 0x1b ∷ []

-- The signature in the document of cose_sign1_ec256_tampered_signature.
abbrev pub tampered_signature : Bytes
tampered_signature =
    0x6e ∷ 0x6d ∷ 0xf6 ∷ 0x54 ∷ 0x89 ∷ 0xea ∷ 0x3b ∷ 1 ∷ 0x88 ∷ 0x33 ∷ 0xf5 ∷ 0xfc ∷ 0x4f ∷ 0x84
    ∷ 0xf8 ∷ 0x1b ∷ 0x4d ∷ 0x5e ∷ 0xfd ∷ 0x5b ∷ 9 ∷ 0xd5 ∷ 0xc6 ∷ 0x2f ∷ 0x2e ∷ 0x92 ∷ 0x38 ∷ 0x5d
    ∷ 0xce ∷ 0x31 ∷ 0xe2 ∷ 0xd1 ∷ 0x5a ∷ 0x53 ∷ 0xa9 ∷ 0xf0 ∷ 0x75 ∷ 0xe8 ∷ 0xfb ∷ 0x39 ∷ 0x66
    ∷ 0x9f ∷ 0xcd ∷ 0x4e ∷ 0xb5 ∷ 0x22 ∷ 0xc8 ∷ 0x5c ∷ 0x92 ∷ 0x77 ∷ 0x45 ∷ 0x2f ∷ 0xa8 ∷ 0x57
    ∷ 0xf5 ∷ 0xfe ∷ 0x37 ∷ 0x9e ∷ 0xdd ∷ 0xef ∷ 0xf ∷ 0xab ∷ 0x3c ∷ 0xdd ∷ []

-- Of cose_sign1_ec256_missing_tag.
abbrev pub missing_tag_document : Bytes
missing_tag_document =
    0x84 ∷ 0x43 ∷ 0xa1 ∷ 1 ∷ 0x26 ∷ 0xa1 ∷ 4 ∷ 0x42 ∷ 0x31 ∷ 0x31 ∷ 0x58 ∷ 0x75 ∷ text
    ++ 0x58 ∷ 0x40 ∷ es256_signature

-- Of cose_sign1_ec256_validate.
abbrev pub es256_document : Bytes
es256_document = 0xd9 ∷ 0 ∷ 0x12 ∷ missing_tag_document

-- Of cose_sign1_ec256_invalid_tag.
abbrev pub invalid_tag_document : Bytes
invalid_tag_document = 0xd3 ∷ missing_tag_document

-- Of cose_sign1_ec384_validate.
abbrev pub es384_document : Bytes
es384_document =
    0x84 ∷ 0x44 ∷ 0xa1 ∷ 1 ∷ 0x38 ∷ 0x22 ∷ 0xa1 ∷ 4 ∷ 0x42 ∷ 0x31 ∷ 0x31 ∷ 0x58 ∷ 0x75 ∷ text
    ++ 0x58 ∷ 0x60 ∷ es384_signature

-- Of cose_sign1_ec512_validate.
abbrev pub es512_document : Bytes
es512_document =
    0x84 ∷ 0x44 ∷ 0xa1 ∷ 1 ∷ 0x38 ∷ 0x23 ∷ 0xa1 ∷ 4 ∷ 0x42 ∷ 0x31 ∷ 0x31 ∷ 0x58 ∷ 0x75 ∷ text
    ++ 0x58 ∷ 0x84 ∷ es512_signature

-- Of cose_sign1_ec256_tampered_content.
abbrev pub tampered_content_document : Bytes
tampered_content_document =
    0x84 ∷ 0x43 ∷ 0xa1 ∷ 1 ∷ 0x26 ∷ 0xa1 ∷ 4 ∷ 0x42 ∷ 0x31 ∷ 0x31 ∷ 0x58 ∷ 0x75 ∷ tampered_text
    ++ 0x58 ∷ 0x40 ∷ es256_signature

-- Of cose_sign1_ec256_tampered_signature.
abbrev pub tampered_signature_document : Bytes
tampered_signature_document =
    0x84 ∷ 0x43 ∷ 0xa1 ∷ 1 ∷ 0x26 ∷ 0xa1 ∷ 4 ∷ 0x42 ∷ 0x31 ∷ 0x31 ∷ 0x58 ∷ 0x75 ∷ text
    ++ 0x58 ∷ 0x40 ∷ tampered_signature

-- What such a document says.
abbrev pub message : Bytes → Bytes → Bytes → CoseSign1 Value
message protected payload signature = record {
  protected = protected;
  unprotected = (int (pos 4), blob (0x31 ∷ 0x31 ∷ [])) ∷ [];
  payload = payload;
  signature = signature;
}
