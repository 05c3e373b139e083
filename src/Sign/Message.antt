-- ===== src/Sign/Message.antt =====
-- `CoseSign1` of src/sign.rs as data: its two serde impls, `as_bytes`, `from_bytes` and
-- `from_bytes_tagged`.
pub mod RoundTrip
pub mod Tags
pub mod Encoding
pub mod Total
use aws_nitro_enclaves_cose.Prelude.{
  ℕ, Bytes, String, Bool, Option, none, some, ◌==◌, if◌then◌else◌,
}
use aws_nitro_enclaves_cose.Outcome.{Outcome, ok, err, ◌>>=◌, ◌>>◌, map_err}
use aws_nitro_enclaves_cose.Error.{CoseError, serialization_error, tag_error}
use aws_nitro_enclaves_cose.Serde.{
  Cbor, Item, Items, bytes, str, entries, seq, tagged, other, nil, cons, from_slice_tagged,
}
use aws_nitro_enclaves_cose.HeaderMap
use aws_nitro_enclaves_cose.HeaderMap.{HeaderMap}

pub record CoseSign1 (V : Type 0) : Type 0 where
  pub protected : Bytes
  pub unprotected : HeaderMap V
  pub payload : Bytes
  pub signature : Bytes

-- `impl Serialize for CoseSign1`
unfoldable pub serialize : {V : Type 0} → CoseSign1 V → Item V
serialize s = seq (
    cons (bytes s.protected) (
      cons (HeaderMap.serialize s.unprotected)
        (cons (bytes s.payload) (cons (bytes s.signature) nil))))

module _ {X V : Type 0} (c : Cbor X V) where
  -- `match seq.next_element()? { Some(v) => v, None => return Err(missing_field(name)) }`: the
  -- element and what is left of the sequence.
  unfoldable pub element :
      {A : Type 0} → (Item V → Outcome X A) → String → Items V → Outcome X (A × Items V)
  element deserialize name nil = err (c.missing_field name)
  element deserialize name (cons i rest) = do v ← deserialize i; ok (v, rest)

  -- `CoseSign1Visitor::visit_seq`
  unfoldable pub visit_seq : Items V → Outcome X (CoseSign1 V × Items V)
  visit_seq items = do
    (protected, items₁) ← element c.byte_buf "protected" items
    (unprotected, items₂) ← element (HeaderMap.deserialize c) "unprotected" items₁
    (payload, items₃) ← element c.byte_buf "payload" items₂
    (signature, items₄) ← element c.byte_buf "signature" items₃
    ok (
      record {
        protected = protected;
        unprotected = unprotected;
        payload = payload;
        signature = signature;
      },
      items₄,
    )

  abbrev expecting : String
  expecting = "a possibly tagged CoseSign1 structure"

  -- `impl Deserialize for CoseSign1`: the visitor's method for the item. A tag is presented as a
  -- newtype struct: `visit_newtype_struct` drops it and goes on with what is under it.
  unfoldable pub deserialize : Item V → Outcome X (CoseSign1 V)
  deserialize (seq items) = do (message, rest) ← visit_seq items; c.end_seq rest; ok message
  deserialize (tagged t i) = deserialize i
  deserialize (bytes b) = err (c.invalid_type (bytes b) expecting)
  deserialize (str b) = err (c.invalid_type (str b) expecting)
  deserialize (entries es) = err (c.invalid_type (entries es) expecting)
  deserialize (other v) = err (c.invalid_type (other v) expecting)

  unfoldable pub as_bytes : CoseSign1 V → Bool → Outcome (CoseError X) Bytes
  as_bytes s is_tagged =
      map_err serialization_error
        (if is_tagged then c.to_vec (tagged 18 (serialize s)) else c.to_vec (serialize s))

  -- `None | Some(18) => ()`
  abbrev pub accept_untagged_or_18 : Option ℕ → Outcome (CoseError X) (Unit {0})
  accept_untagged_or_18 none = ok tt
  accept_untagged_or_18 (some t) = if t == 18 then ok tt else err (tag_error (some t))

  -- `Some(18) => ()`
  abbrev pub accept_18 : Option ℕ → Outcome (CoseError X) (Unit {0})
  accept_18 none = err (tag_error none)
  accept_18 (some t) = if t == 18 then ok tt else err (tag_error (some t))

  unfoldable pub from_bytes : Bytes → Outcome (CoseError X) (CoseSign1 V)
  from_bytes b = do
    (tag, value) ← map_err serialization_error (from_slice_tagged c deserialize b)
    accept_untagged_or_18 tag
    protected ← map_err serialization_error (HeaderMap.from_bytes c value.protected)
    ok value

  unfoldable pub from_bytes_tagged : Bytes → Outcome (CoseError X) (CoseSign1 V)
  from_bytes_tagged b = do
    (tag, value) ← map_err serialization_error (from_slice_tagged c deserialize b)
    accept_18 tag
    protected ← map_err serialization_error (HeaderMap.from_bytes c value.protected)
    ok value
