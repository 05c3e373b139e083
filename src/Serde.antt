-- ===== src/Serde.antt =====
-- The border to serde and serde_cbor, which src/ only calls. A Serialize impl is read as the item
-- that its calls on the serializer describe, and a Deserialize impl as a function of the item that
-- the deserializer presents. What the two crates do with items is a parameter.
pub mod Laws
pub mod Total
pub mod Injective
use aws_nitro_enclaves_cose.Prelude.{ℕ, ℤ, Bytes, String, List, Option, Bool, Ordering}
use aws_nitro_enclaves_cose.Outcome.{Outcome, ok, ◌>>=◌}
use aws_nitro_enclaves_cose.OrderedMap.{OrderedMap}

-- What passes between an impl and the format. `V` stands for `serde_cbor::Value`; `other` is an item
-- that no impl of the crate writes.
mutual
  pub data Item (V : Type 0) : Type 0 where
    bytes : Bytes → Item V
    str : Bytes → Item V
    entries : List (V × V) → Item V
    seq : Items V → Item V
    tagged : ℕ → Item V → Item V
    other : V → Item V

  pub data Items (V : Type 0) : Type 0 where
    nil : Items V
    cons : Item V → Items V → Items V

-- The variants of `serde_cbor::Value` that the crate builds or matches on.
pub data View : Type 0 where
  integer : ℤ → View
  byte_string : Bytes → View
  others : View

-- `X` stands for the errors of the libraries.
pub record Cbor (X V : Type 0) : Type 0 where
  -- `Value`: its constructors, a match on it, and its order.
  pub of_integer : ℤ → V
  pub of_bytes : Bytes → V
  pub view : V → View
  pub cmp : V → V → Ordering
  -- `serde_cbor::to_vec` of an impl's item, and of a `Value`
  pub to_vec : Item V → Outcome X Bytes
  pub value_to_vec : V → Outcome X Bytes
  -- `serde_cbor::from_slice`, up to the item that it presents
  pub from_slice : Bytes → Outcome X (Item V)
  -- `Deserialize` of `serde_cbor::tags::Tagged<T>`: the tag, and what is left for `T`
  pub untag : Item V → Option ℕ × Item V
  -- `Deserialize` of `serde_bytes::ByteBuf`
  pub byte_buf : Item V → Outcome X Bytes
  -- `serde_with::rust::maps_duplicate_key_is_error::deserialize` into a BTreeMap
  pub unique_map : Item V → Outcome X (OrderedMap V V)
  -- A derived `Deserialize` of a struct: the items of its named fields, in their order
  pub struct_fields : List String → Item V → Outcome X (Items V)
  -- The deserializer's check of a sequence, once the visitor has returned
  pub end_seq : Items V → Outcome X (Unit {0})
  -- `serde::de::Error::missing_field`, and the error of a visit that a visitor does not define
  pub missing_field : String → X
  pub invalid_type : Item V → String → X

module _ {X V : Type 0} (c : Cbor X V) where
  -- `serde_cbor::from_slice::<Tagged<T>>`, from the `Deserialize` of `T`: the tag and the value.
  unfoldable pub from_slice_tagged :
      {A : Type 0} → (Item V → Outcome X A) → Bytes → Outcome X (Option ℕ × A)
  from_slice_tagged deserialize b = do
    i ← c.from_slice b
    let split = c.untag i
    value ← deserialize split.1
    ok (split.0, value)
