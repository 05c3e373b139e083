-- ===== src/Tests/Ledger.antt =====
-- A key that remembers the digests that it signed and accepts no others, and a short session with it.
use Prim.Native.Nat.Ordering.{eq}
use mathlib.Core.List.Memᴰ.{head, tail}
use mathlib.Core.Path.{subst}
use aws_nitro_enclaves_cose.Prelude.{
  ℕ, String, Bytes, Bool, true, false, List, [], ◌∷◌, Memᴰ, ◌≡◌, refl, sym, ◌∙◌, ap, some, arith,
  Bool-cases, inl, inr,
}
use aws_nitro_enclaves_cose.Outcome.{ok, ok-injective}
use aws_nitro_enclaves_cose.Crypto.Algorithms.{es256, sha256}
use aws_nitro_enclaves_cose.Crypto.Traits.{SigningPrivateKey}
use aws_nitro_enclaves_cose.Crypto.Traits.Trace.{Uses, fresh, asks, verifies, signs, IsIdeal}
use aws_nitro_enclaves_cose.OrderedMap
use aws_nitro_enclaves_cose.HeaderMap
use aws_nitro_enclaves_cose.Crypto.Algorithms.{discriminant}
use aws_nitro_enclaves_cose.Sign.Structure
use aws_nitro_enclaves_cose.Sign.Message.{CoseSign1}
use aws_nitro_enclaves_cose.Sign.Signing.{new, new_with_protected, verify_signature, get_payload}
use aws_nitro_enclaves_cose.Sign.Signing.Verify.{verify_signature_of}
use aws_nitro_enclaves_cose.Sign.Signing.Release.{get_payload_iff}
use aws_nitro_enclaves_cose.Sign.Session.{Session, create, step, IsReachable, begin, next}
use aws_nitro_enclaves_cose.Prelude.{negsuc}
use aws_nitro_enclaves_cose.Tests.Value.{Value, int}
use aws_nitro_enclaves_cose.Tests.Cbor.{write, write_items, write_value, write_entries}
use aws_nitro_enclaves_cose.Tests.Cbor.Heads.{write_head}
use aws_nitro_enclaves_cose.Tests.Format.{format}
use aws_nitro_enclaves_cose.Tests.Signed.{
  payload, protected_bytes, structure, structure_written, header, header_read, header_alg,
  view_es256,
}
use aws_nitro_enclaves_cose.Tests.Value.{cmp_bytes, eq_of_cmp_bytes}
use aws_nitro_enclaves_cose.Tests.Signed
use aws_nitro_enclaves_cose.Tests.Keys.{p256_key, sum_hash}
use aws_nitro_enclaves_cose.Tests.Signed.{keep_hash, new-message}

abbrev pub same_bytes : Bytes → Bytes → Bool
same_bytes a b = elim (cmp_bytes a b) [ eq ↦ true | _ ↦ false ]

abbrev pub is_noted : Bytes → List Bytes → Bool
is_noted d [] = false
is_noted d (e ∷ es) = elim (same_bytes d e) [ true ↦ true | false ↦ is_noted d es ]

abbrev pub ledger_key : SigningPrivateKey String (List Bytes)
ledger_key = record {
  public_key = record {
    get_parameters = λ k. (ok (es256, sha256), k);
    verify = λ d s k. (ok (is_noted d k), k);
  };
  sign = λ d k. (ok (7 ∷ []), d ∷ k);
}

pub same_bytes-eq : (a b : Bytes) → same_bytes a b ≡ true → a ≡ b
same_bytes-eq a b e = eq_of_cmp_bytes a b (ground arith)

Mem-of_noted : (d : Bytes) (ds : List Bytes) → is_noted d ds ≡ true → Memᴰ d ds
Mem-of_noted d [] e = cc
Mem-of_noted d (x ∷ ds) e = elim (Bool-cases (same_bytes d x)) [
  | inl same ↦ head (same_bytes-eq d x same)
  | inr differs ↦ tail (Mem-of_noted d ds (rw (is_noted, differs) at e))
]

-- The state is what was signed.
ledger_is : (ds k : List Bytes) → Uses ledger_key [] ds k → k ≡ ds
ledger_is ds k fresh = refl
ledger_is ds k (asks u) = ledger_is ds k u
ledger_is ds k (verifies d s u) = ledger_is ds k u
ledger_is ds k (signs d u) = ap (λ (l : List Bytes). d ∷ l) (ledger_is _ _ u)

pub ledger_key-IsIdeal : IsIdeal keep_hash ledger_key []
ledger_key-IsIdeal = record {
  hash-injective = λ a b x y d e f. ok-injective e ∙ sym (ok-injective f);
  verify_signed =
      λ {ds} {k} d s u e. subst (Memᴰ d) (ledger_is ds k u) (Mem-of_noted d k (ok-injective e));
}

-- The message that it signs, and the session in which it does.
abbrev pub message : CoseSign1 Value
message = record {
  protected = protected_bytes;
  unprotected = [];
  payload = payload;
  signature = 7 ∷ [];
}

abbrev pub session : Session Value (List Bytes)
session = record { key_state = structure ∷ []; signed = message ∷ [] }

pub session_reached : IsReachable format keep_hash ledger_key [] session
unfolding step new new_with_protected HeaderMap.map_to_empty_or_serialized HeaderMap.is_empty
    OrderedMap.is_empty HeaderMap.insert OrderedMap.insert Structure.struct_digest
    Structure.new_sign1 Structure.as_bytes Structure.serialize write write_head write_items
    write_entries write_value discriminant
session_reached = next (create payload []) begin

pub message_verified :
    (verify_signature format keep_hash message ledger_key.public_key session.key_state).0 ≡ ok true
message_verified =
    verify_signature_of format keep_hash message ledger_key.public_key session.key_state record {
      reached = record {
        alg = es256;
        digest = sha256;
        after = session.key_state;
        parameters = refl;
        header = header;
        header_read = header_read;
        value = int (negsuc 6);
        value_found = header_alg;
        value_view = view_es256;
        structure = structure;
        structure_written = structure_written;
        hashed = structure;
        hashed_structure = refl;
      };
      accepted = refl;
    }

pub payload_read :
    (get_payload format keep_hash message (some ledger_key.public_key) session.key_state).0
    ≡ ok payload
payload_read =
    (get_payload_iff format keep_hash message ledger_key.public_key session.key_state payload).1
      (message_verified, refl)

-- A session with the OpenSSL key.
abbrev pub p256_session : Session Value ℕ
p256_session = record { key_state = 1; signed = Signed.message ∷ [] }

p256_step :
    step format sum_hash p256_key (create payload []) record { key_state = 0; signed = [] }
    ≡ p256_session
unfolding step
p256_step = rw new-message

pub p256_session_reached : IsReachable format sum_hash p256_key 0 p256_session
p256_session_reached =
    subst (IsReachable format sum_hash p256_key 0) p256_step (next (create payload []) begin)
