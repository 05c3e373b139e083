-- ===== src/Encrypt/Message.antt =====
-- `CoseEncrypt0` of src/encrypt.rs as data: its two serde impls, `as_bytes` and `from_bytes`.
pub mod RoundTrip
pub mod Encoding
pub mod Total
use aws_nitro_enclaves_cose.Prelude.{
  ℕ, Bytes, String, Bool, List, [], ◌∷◌, Option, none, some, ◌==◌, if◌then◌else◌,
}
use aws_nitro_enclaves_cose.Outcome.{Outcome, ok, err, ◌>>=◌, ◌>>◌, map_err}
use aws_nitro_enclaves_cose.Error.{CoseError, serialization_error, tag_error}
use aws_nitro_enclaves_cose.Serde.{
  Cbor, Item, Items, bytes, seq, tagged, nil, cons, from_slice_tagged,
}
use aws_nitro_enclaves_cose.HeaderMap
use aws_nitro_enclaves_cose.HeaderMap.{HeaderMap}

pub record CoseEncrypt0 (V : Type 0) : Type 0 where
  pub protected : Bytes
  pub unprotected : HeaderMap V
  pub ciphertext : Bytes

-- `impl Serialize for CoseEncrypt0`
unfoldable pub serialize : {V : Type 0} → CoseEncrypt0 V → Item V
serialize m = seq (
    cons (bytes m.protected)
      (cons (HeaderMap.serialize m.unprotected) (cons (bytes m.ciphertext) nil)))

abbrev pub field_names : List String
field_names = "protected" ∷ "unprotected" ∷ "ciphertext" ∷ []

module _ {X V : Type 0} (c : Cbor X V) where
  -- The derived `Deserialize`, from the items of the fields. `struct_fields` gives three.
  unfoldable pub of_fields : Item V → Items V → Outcome X (CoseEncrypt0 V)
  of_fields whole (cons p (cons u (cons t nil))) = do
    protected ← c.byte_buf p
    unprotected ← HeaderMap.deserialize c u
    ciphertext ← c.byte_buf t
    ok record { protected = protected; unprotected = unprotected; ciphertext = ciphertext }
  of_fields whole _ = err (c.invalid_type whole "struct CoseEncrypt0")

  unfoldable pub deserialize : Item V → Outcome X (CoseEncrypt0 V)
  deserialize i = do fields ← c.struct_fields field_names i; of_fields i fields

  unfoldable pub as_bytes : CoseEncrypt0 V → Bool → Outcome (CoseError X) Bytes
  as_bytes m is_tagged =
      map_err serialization_error
        (if is_tagged then c.to_vec (tagged 16 (serialize m)) else c.to_vec (serialize m))

  -- `None | Some(16) => ()`
  abbrev pub accept_untagged_or_16 : Option ℕ → Outcome (CoseError X) (Unit {0})
  accept_untagged_or_16 none = ok tt
  accept_untagged_or_16 (some t) = if t == 16 then ok tt else err (tag_error (some t))

  unfoldable pub from_bytes : Bytes → Outcome (CoseError X) (CoseEncrypt0 V)
  from_bytes b = do
    (tag, value) ← map_err serialization_error (from_slice_tagged c deserialize b)
    accept_untagged_or_16 tag
    protected ← map_err serialization_error (HeaderMap.from_bytes c value.protected)
    ok value
