-- ===== src/Tests/Signed.antt =====
-- A signed message of the test format, as src/sign.rs makes it.
use Prim.Native.Nat.Ordering.{eq}
use aws_nitro_enclaves_cose.Prelude.{Bool, sym, ◌∙◌, some, ◌+◌, arith}
use aws_nitro_enclaves_cose.Outcome.{ok-injective}
use aws_nitro_enclaves_cose.OrderedMap.{get}
use aws_nitro_enclaves_cose.Serde.{integer}
use aws_nitro_enclaves_cose.Crypto.Algorithms.{es256, sha256}
use aws_nitro_enclaves_cose.Crypto.Traits.{Hash, SigningPublicKey}
use aws_nitro_enclaves_cose.Sign.Signing.{get_payload}
use aws_nitro_enclaves_cose.Sign.Signing.Authentic.{IsUnforgeable}
use aws_nitro_enclaves_cose.Sign.Signing.Release.{get_payload_iff}
use aws_nitro_enclaves_cose.Sign.Signing.Verify.{verify_signature_iff}
use aws_nitro_enclaves_cose.Tests.Value.{cmp_bytes, eq_of_cmp_bytes}
use aws_nitro_enclaves_cose.Prelude.{String, negsuc, true, false}
use aws_nitro_enclaves_cose.Error.{CoseError}
use aws_nitro_enclaves_cose.OrderedMap.{insert}
use aws_nitro_enclaves_cose.OrderedMap.Entries.{insert_all}
use aws_nitro_enclaves_cose.Crypto.Algorithms.{key_length}
use aws_nitro_enclaves_cose.Sign.Message.{serialize, as_bytes}
use aws_nitro_enclaves_cose.Sign.Signing.Verify.{sig_structure}
use aws_nitro_enclaves_cose.Tests.Value.{int}
use aws_nitro_enclaves_cose.Tests.Cbor.{
  write_items, write_value, write_entries, read, read_entries, read_value,
}
use aws_nitro_enclaves_cose.Tests.Cbor.Heads.{write_head, read_head}
use aws_nitro_enclaves_cose.Prelude.{ℕ, pos, Bytes, [], ◌∷◌, ◌++◌, ◌≡◌, refl, ap, replicate}
use aws_nitro_enclaves_cose.Outcome.{Outcome, ok}
use aws_nitro_enclaves_cose.Serde.{entries}
use aws_nitro_enclaves_cose.HeaderMap
use aws_nitro_enclaves_cose.HeaderMap.{HeaderMap}
use aws_nitro_enclaves_cose.Crypto.Algorithms.{discriminant}
use aws_nitro_enclaves_cose.Crypto.OpensslPkey
use aws_nitro_enclaves_cose.Crypto.Signature.{merge_ec_signature, copy_from_slice}
use aws_nitro_enclaves_cose.Sign.Message.{CoseSign1}
use aws_nitro_enclaves_cose.Sign.Signing.{new}
use aws_nitro_enclaves_cose.Sign.Signing.Create.{new_lem}
use aws_nitro_enclaves_cose.Tests.Value.{Value}
use aws_nitro_enclaves_cose.Tests.Cbor.{write}
use aws_nitro_enclaves_cose.Tests.Format.{format}
use aws_nitro_enclaves_cose.Tests.Keys.{p256_key, p256_key-IsSound, sum_hash}

abbrev pub payload : Bytes
payload = 1 ∷ 2 ∷ 3 ∷ []

-- The protected bytes of the test `map_serialization` for ES256: a1 01 26.
abbrev pub protected_bytes : Bytes
protected_bytes = 0xa1 ∷ 1 ∷ 0x26 ∷ []

-- The Sig_structure: an array of the context, the protected bytes, no data, and the payload.
abbrev pub structure : Bytes
structure =
    0x84 ∷ 0x6a ∷ 83 ∷ 105 ∷ 103 ∷ 110 ∷ 97 ∷ 116 ∷ 117 ∷ 114 ∷ 101 ∷ 49 ∷ 0x43 ∷ 0xa1 ∷ 1 ∷ 0x26
    ∷ 0x40 ∷ 0x43 ∷ 1 ∷ 2 ∷ 3 ∷ []

abbrev pub signature : Bytes
signature = replicate 31 0 ++ 1 ∷ replicate 31 0 ++ 0 ∷ []

abbrev pub message : CoseSign1 Value
message = record {
  protected = protected_bytes;
  unprotected = [];
  payload = payload;
  signature = signature;
}

pub protected_written :
    format.to_vec (
      entries (
        (format.of_integer (pos 1), format.of_integer (discriminant p256_key-IsSound.algorithm))
        ∷ []))
    ≡ ok protected_bytes
unfolding write write_head write_entries write_value discriminant
protected_written = refl

pub structure_written : format.to_vec (sig_structure protected_bytes payload) ≡ ok structure
unfolding write write_head write_items
structure_written = refl

-- The key signs the one byte that the hash gives.
pub hash_signed : p256_key.sign (21 ∷ []) 0 ≡ (ok signature, 1)
unfolding OpensslPkey.sign OpensslPkey.curve_of OpensslPkey.ec_curve_to_parameters
    OpensslPkey.curve_algorithm merge_ec_signature copy_from_slice key_length
hash_signed = refl

pub new-message : new format sum_hash p256_key payload [] 0 ≡ (ok message, 1)
new-message =
    new_lem format sum_hash p256_key p256_key-IsSound payload [] 0 1 protected_bytes structure
      (21 ∷ []) signature protected_written structure_written refl hash_signed

pub message_signed : (new format sum_hash p256_key payload [] 0).0 ≡ ok message
message_signed = ap (λ (p : Outcome (CoseError String) (CoseSign1 Value) × ℕ). p.0) new-message

-- The header map of the message.
abbrev pub header : HeaderMap Value
header = (int (pos 1), int (negsuc 6)) ∷ []

pub header_read : HeaderMap.from_bytes format protected_bytes ≡ ok header
unfolding HeaderMap.from_bytes HeaderMap.deserialize insert_all insert read read_head read_entries
    read_value
header_read = refl

-- The message with its tag and without.
abbrev pub untagged_bytes : Bytes
untagged_bytes = 0x84 ∷ 0x43 ∷ 0xa1 ∷ 1 ∷ 0x26 ∷ 0xa0 ∷ 0x43 ∷ 1 ∷ 2 ∷ 3 ∷ 0x58 ∷ 64 ∷ signature

abbrev pub tagged_bytes : Bytes
tagged_bytes = 0xd2 ∷ untagged_bytes

pub as_bytes_tagged : as_bytes format message true ≡ ok tagged_bytes
unfolding as_bytes serialize write write_head write_items write_entries
as_bytes_tagged = refl

pub as_bytes_untagged : as_bytes format message false ≡ ok untagged_bytes
unfolding as_bytes serialize write write_head write_items write_entries
as_bytes_untagged = refl

-- A hash that keeps its input, and a key that accepts just the digest of the message.
abbrev pub keep_hash : Hash String
keep_hash = record { hash = λ d b. ok b }

abbrev pub is_structure : Bytes → Bool
is_structure b = elim (cmp_bytes b structure) [ eq ↦ true | _ ↦ false ]

abbrev pub strict_key : SigningPublicKey String ℕ
strict_key = record {
  get_parameters = λ k. (ok (es256, sha256), k);
  verify = λ d s k. (ok (is_structure d), k + 1);
}

-- What its signer released.
abbrev pub Released : Bytes → Bytes → Type 0
Released p b = (p ≡ protected_bytes) × (b ≡ payload)

is_structure_iff : (b : Bytes) → is_structure b ≡ true → structure ≡ b
is_structure_iff b e = sym (eq_of_cmp_bytes b structure (ground arith))

pub strict_key-IsUnforgeable : IsUnforgeable format keep_hash strict_key Released
strict_key-IsUnforgeable = record {
  hash-injective = λ a b x y d e f. ok-injective e ∙ sym (ok-injective f);
  signed = λ d s k e. (
    protected_bytes,
    payload,
    structure,
    sha256,
    (refl, refl),
    structure_written,
    ap ok (is_structure_iff d (ok-injective e)),
  );
}

pub header_alg : HeaderMap.get format (int (pos 1)) header ≡ some (int (negsuc 6))
unfolding HeaderMap.get get
header_alg = refl

pub view_es256 : format.view (int (negsuc 6)) ≡ integer (discriminant es256)
unfolding discriminant
view_es256 = refl

pub payload_released : (get_payload format keep_hash message (some strict_key) 0).0 ≡ ok payload
payload_released = (get_payload_iff format keep_hash message strict_key 0 payload).1 (
  (verify_signature_iff format keep_hash message strict_key 0).1 record {
    reached = record {
      alg = es256;
      digest = sha256;
      after = 0;
      parameters = refl;
      header = header;
      header_read = header_read;
      value = int (negsuc 6);
      value_found = header_alg;
      value_view = view_es256;
      structure = structure;
      structure_written = structure_written;
      hashed = structure;
      hashed_structure = refl;
    };
    accepted = refl;
  },
  refl,
)
