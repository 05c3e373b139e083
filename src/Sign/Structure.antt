-- ===== src/Sign/Structure.antt =====
-- `SigStructure` of src/sign.rs: the bytes that are hashed and signed.
use aws_nitro_enclaves_cose.Prelude.{Bytes, codes, [], Option, none, some}
use aws_nitro_enclaves_cose.Outcome.{Outcome, ok, ◌>>=◌, map_err}
use aws_nitro_enclaves_cose.Error.{CoseError, serialization_error, signature_error, cose}
use aws_nitro_enclaves_cose.Crypto.Algorithms.{MessageDigest}
use aws_nitro_enclaves_cose.Crypto.Traits.{Hash}
use aws_nitro_enclaves_cose.Serde.{Cbor, Item, Items, bytes, str, seq, nil, cons}

pub record SigStructure : Type 0 where
  pub context : Bytes
  pub body_protected : Bytes
  pub sign_protected : Option Bytes
  pub external_aad : Bytes
  pub payload : Bytes

unfoldable pub new_sign1 : {X : Type 0} → Bytes → Bytes → Outcome X SigStructure
new_sign1 body_protected payload = ok record {
  context = codes "Signature1";
  body_protected = body_protected;
  sign_protected = none;
  external_aad = [];
  payload = payload;
}

-- `skip_serializing_if = "Option::is_none"`
abbrev optional : {V : Type 0} → Option Bytes → Items V → Items V
optional none rest = rest
optional (some b) rest = cons (bytes b) rest

-- The derived `Serialize` of the tuple struct: an array of the fields that are not skipped.
unfoldable pub serialize : {V : Type 0} → SigStructure → Item V
serialize s = seq (
    cons (str s.context) (
      cons (bytes s.body_protected)
        (optional s.sign_protected (cons (bytes s.external_aad) (cons (bytes s.payload) nil)))))

module _ {X V : Type 0} (c : Cbor X V) where
  unfoldable pub new_sign1_cbor_value : Bytes → V → Outcome X SigStructure
  new_sign1_cbor_value body_protected payload = do
    b ← c.value_to_vec payload
    new_sign1 body_protected b

  unfoldable pub as_bytes : SigStructure → Outcome X Bytes
  as_bytes s = c.to_vec (serialize s)

  -- The digest that `new_with_protected` signs and `verify_signature` checks: both have these lines.
  unfoldable pub struct_digest :
      Hash X → MessageDigest → Bytes → Bytes → Outcome (CoseError X) Bytes
  struct_digest h digest protected payload = do
    sig_structure ← map_err serialization_error (new_sign1 protected payload)
    b ← map_err serialization_error (as_bytes sig_structure)
    map_err (λ e. signature_error (cose e)) (h.hash digest b)
