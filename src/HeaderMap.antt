-- ===== src/HeaderMap.antt =====
-- src/header_map.rs: the header map, its operations and its two encodings.
pub mod RoundTrip
pub mod Total
pub mod Contents
use aws_nitro_enclaves_cose.Prelude.{Bytes, Option, Bool, [], if◌then◌else◌}
use aws_nitro_enclaves_cose.Outcome.{Outcome, ok, ◌>>=◌}
use aws_nitro_enclaves_cose.OrderedMap
use aws_nitro_enclaves_cose.OrderedMap.{OrderedMap}
use aws_nitro_enclaves_cose.Serde.{Cbor, Item, entries}

-- `struct HeaderMap(BTreeMap<CborValue, CborValue>)`
abbrev pub HeaderMap : Type 0 → Type 0
HeaderMap V = OrderedMap V V

abbrev pub new : {V : Type 0} → HeaderMap V
new = []

-- The derived `Serialize`: the newtype is written as its map.
abbrev pub serialize : {V : Type 0} → HeaderMap V → Item V
serialize m = entries m

unfoldable pub is_empty : {V : Type 0} → HeaderMap V → Bool
is_empty m = OrderedMap.is_empty m

module _ {X V : Type 0} (c : Cbor X V) where
  -- The map after the call, and the old value of the key.
  unfoldable pub insert : V → V → HeaderMap V → Option V × HeaderMap V
  insert k v m = (OrderedMap.get c.cmp k m, OrderedMap.insert c.cmp k v m)

  unfoldable pub get : V → HeaderMap V → Option V
  get k m = OrderedMap.get c.cmp k m

  -- The derived `Deserialize`, with its `deserialize_with`.
  unfoldable pub deserialize : Item V → Outcome X (HeaderMap V)
  deserialize i = c.unique_map i

  unfoldable pub from_bytes : Bytes → Outcome X (HeaderMap V)
  from_bytes b = do i ← c.from_slice b; deserialize i

  unfoldable pub map_to_empty_or_serialized : HeaderMap V → Outcome X Bytes
  map_to_empty_or_serialized m = if is_empty m then ok [] else c.to_vec (serialize m)
