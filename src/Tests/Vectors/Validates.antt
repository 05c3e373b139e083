-- ===== src/Tests/Vectors/Validates.antt =====
-- The documents of the tests in src/sign.rs under a public key of ES256, and the Sig_structure of
-- sig_structure_text.
use aws_nitro_enclaves_cose.Prelude.{
  String, Bytes, [], ◌∷◌, ◌++◌, ◌≡◌, refl, some, none, negsuc, pos, true, false,
}
use aws_nitro_enclaves_cose.Outcome.{ok, err}
use aws_nitro_enclaves_cose.OrderedMap
use aws_nitro_enclaves_cose.OrderedMap.Entries.{insert_all}
use aws_nitro_enclaves_cose.HeaderMap
use aws_nitro_enclaves_cose.HeaderMap.{HeaderMap}
use aws_nitro_enclaves_cose.Serde.{integer}
use aws_nitro_enclaves_cose.Crypto.Algorithms.{es256, sha256, discriminant}
use aws_nitro_enclaves_cose.Crypto.Traits.{Hash, SigningPublicKey}
use aws_nitro_enclaves_cose.Error.{unverified_signature}
use aws_nitro_enclaves_cose.Sign.Structure
use aws_nitro_enclaves_cose.Sign.Signing.{get_payload}
use aws_nitro_enclaves_cose.Sign.Signing.Verify.{IsReached, verify_signature_reached, sig_structure}
use aws_nitro_enclaves_cose.Sign.Signing.Release.{get_payload_lem, released}
use aws_nitro_enclaves_cose.Tests.Value.{Value, int}
use aws_nitro_enclaves_cose.Tests.Cbor.{write, write_items, read, read_entries, read_value}
use aws_nitro_enclaves_cose.Tests.Cbor.Heads.{write_head, read_head}
use aws_nitro_enclaves_cose.Tests.Format.{format}
use aws_nitro_enclaves_cose.Tests.Vectors.{
  text, tampered_text, es256_signature, tampered_signature, message,
}

abbrev protected : Bytes
protected = 0xa1 ∷ 1 ∷ 0x26 ∷ []

abbrev context : Bytes
context = 0x84 ∷ 0x6a ∷ 0x53 ∷ 0x69 ∷ 0x67 ∷ 0x6e ∷ 0x61 ∷ 0x74 ∷ 0x75 ∷ 0x72 ∷ 0x65 ∷ 0x31 ∷ []

abbrev structure_of : Bytes → Bytes
structure_of payload = context ++ 0x43 ∷ 0xa1 ∷ 1 ∷ 0x26 ∷ 0x40 ∷ 0x58 ∷ 0x75 ∷ payload

-- The first Sig_structure of sig_structure_text has no protected headers.
sig_structure_text_empty :
    Structure.as_bytes format (record {
      context = 0x53 ∷ 0x69 ∷ 0x67 ∷ 0x6e ∷ 0x61 ∷ 0x74 ∷ 0x75 ∷ 0x72 ∷ 0x65 ∷ 0x31 ∷ [];
      body_protected = [];
      sign_protected = none;
      external_aad = [];
      payload = text;
    })
    ≡ ok (context ++ 0x40 ∷ 0x40 ∷ 0x58 ∷ 0x75 ∷ text)
unfolding Structure.as_bytes Structure.serialize write write_items write_head
sig_structure_text_empty = refl

-- The second has those of ES256.
sig_structure_text : format.to_vec (sig_structure protected text) ≡ ok (structure_of text)
unfolding write write_items write_head
sig_structure_text = refl

tampered_structure :
    format.to_vec (sig_structure protected tampered_text) ≡ ok (structure_of tampered_text)
unfolding write write_items write_head
tampered_structure = refl

abbrev header : HeaderMap Value
header = (int (pos 1), int (negsuc 6)) ∷ []

header_read : HeaderMap.from_bytes format protected ≡ ok header
unfolding HeaderMap.from_bytes HeaderMap.deserialize insert_all OrderedMap.insert read read_head
    read_entries read_value
header_read = refl

header_alg : HeaderMap.get format (int (pos 1)) header ≡ some (int (negsuc 6))
unfolding HeaderMap.get OrderedMap.get
header_alg = refl

view_es256 : format.view (int (negsuc 6)) ≡ integer (discriminant es256)
unfolding discriminant
view_es256 = refl

module _ {K : Type 0} (h : Hash String) (key : SigningPublicKey String K) (k after : K)
    (parameters : key.get_parameters k ≡ (ok (es256, sha256), after)) where
  -- `get_payload` releases the payload on the key's answer for the digest of its Sig_structure.
  released_by_key :
      (payload signature structure digest : Bytes)
      → format.to_vec (sig_structure protected payload) ≡ ok structure
      → h.hash sha256 structure ≡ ok digest
      → get_payload format h (message protected payload signature) (some key) k ≡ (
        released (ok payload) (key.verify digest signature after).0,
        (key.verify digest signature after).1,
      )
  released_by_key payload signature structure digest written hashed =
      let m = message protected payload signature in
      let reached : IsReached format h m key k = record {
        alg = es256;
        digest = sha256;
        after = after;
        parameters = parameters;
        header = header;
        header_read = header_read;
        value = int (negsuc 6);
        value_found = header_alg;
        value_view = view_es256;
        structure = structure;
        structure_written = written;
        hashed = digest;
        hashed_structure = hashed;
      } in
      rw ((get_payload_lem format h m key k).0, verify_signature_reached format h m key k reached)

  -- cose_sign1_ec256_validate: where the key accepts the signature, the text is given.
  es256_validate :
      (digest : Bytes)
      → h.hash sha256 (structure_of text) ≡ ok digest
      → (key.verify digest es256_signature after).0 ≡ ok true
      → (get_payload format h (message protected text es256_signature) (some key) k).0 ≡ ok text
  es256_validate digest hashed accepted = rw (
    released_by_key text es256_signature (structure_of text) digest sig_structure_text hashed,
    accepted,
  )

  -- cose_sign1_ec256_tampered_content: where the key refuses the signature, nothing is given.
  es256_tampered_content :
      (digest : Bytes)
      → h.hash sha256 (structure_of tampered_text) ≡ ok digest
      → (key.verify digest es256_signature after).0 ≡ ok false
      → (get_payload format h (message protected tampered_text es256_signature) (some key) k).0
        ≡ err unverified_signature
  es256_tampered_content digest hashed refused = rw (
    released_by_key tampered_text es256_signature (structure_of tampered_text) digest
        tampered_structure hashed,
    refused,
  )

  -- cose_sign1_ec256_tampered_signature
  es256_tampered_signature :
      (digest : Bytes)
      → h.hash sha256 (structure_of text) ≡ ok digest
      → (key.verify digest tampered_signature after).0 ≡ ok false
      → (get_payload format h (message protected text tampered_signature) (some key) k).0
        ≡ err unverified_signature
  es256_tampered_signature digest hashed refused = rw (
    released_by_key text tampered_signature (structure_of text) digest sig_structure_text hashed,
    refused,
  )
