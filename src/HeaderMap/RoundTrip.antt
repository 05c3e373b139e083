-- ===== src/HeaderMap/RoundTrip.antt =====
-- What the two encodings of a header map give back.
use aws_nitro_enclaves_cose.Prelude.{Bytes, [], ◌∷◌, ◌≡◌, ◌≢◌, refl, ◌∙◌, some, ap, false}
use aws_nitro_enclaves_cose.Outcome.{ok, err}
use aws_nitro_enclaves_cose.OrderedMap
use aws_nitro_enclaves_cose.OrderedMap.Order.{IsSorted, insert-IsSorted}
use aws_nitro_enclaves_cose.OrderedMap.Lookup.{get-insert_self, get-insert_ne}
use aws_nitro_enclaves_cose.OrderedMap.Entries.{
  HasUniqueKeys, HasUniqueKeys-IsSorted, insert_all-IsSorted,
}
use aws_nitro_enclaves_cose.Serde.{Cbor, entries}
use aws_nitro_enclaves_cose.Serde.Laws.{CborLaws}
use aws_nitro_enclaves_cose.HeaderMap.{
  HeaderMap, new, serialize, is_empty, insert, get, deserialize, from_bytes,
  map_to_empty_or_serialized,
}

-- A map with an entry is not empty.
pub is_empty_of_get :
    {X V : Type 0} (c : Cbor X V) (k : V) (m : HeaderMap V) {v : V}
    → get c k m ≡ some v
    → is_empty m ≡ false
unfolding get is_empty OrderedMap.get OrderedMap.is_empty
is_empty_of_get c k [] e = cc
is_empty_of_get c k (_ ∷ m) e = refl

module _ {X V : Type 0} (c : Cbor X V) (L : CborLaws c) where
  pub get-insert : (k v : V) (m : HeaderMap V) → get c k (insert c k v m).1 ≡ some v
  unfolding insert get
  get-insert k v m = get-insert_self c.cmp L.ordered k v m

  -- On a well-formed map, `insert` keeps the order of the keys and gives the old value of its key;
  -- `get` then gives the new value of that key, and of every other key what it gave before.
  pub insert_lem :
      (k j v : V) (m : HeaderMap V)
      → j ≢ k
      → IsSorted c.cmp m
      → let after = insert c k v m in
        IsSorted c.cmp after.1
        × (after.0 ≡ get c k m)
        × (get c k after.1 ≡ some v)
        × (get c j after.1 ≡ get c j m)
  unfolding insert get
  insert_lem k j v m n s = (
    insert-IsSorted c.cmp L.ordered k v m s,
    refl,
    get-insert_self c.cmp L.ordered k v m,
    get-insert_ne c.cmp L.ordered k j v m n s,
  )

  -- A well-formed map is read back from its own item.
  pub deserialize-serialize :
      (m : HeaderMap V) → IsSorted c.cmp m → deserialize c (serialize m) ≡ ok m
  unfolding deserialize
  deserialize-serialize m s =
      L.unique_map-entries m (HasUniqueKeys-IsSorted c.cmp L.ordered m s)
      ∙ ap ok (insert_all-IsSorted c.cmp L.ordered m s)

  pub from_bytes-to_vec :
      (m : HeaderMap V) (b : Bytes)
      → IsSorted c.cmp m
      → c.to_vec (serialize m) ≡ ok b
      → from_bytes c b ≡ ok m
  unfolding from_bytes
  from_bytes-to_vec m b s h = rw (L.from_slice-to_vec (serialize m) b h) (deserialize-serialize m s)

  -- A well-formed map that holds an entry comes back from the bytes that `map_to_empty_or_serialized`
  -- gives.
  pub from_bytes-map_to_empty_or_serialized :
      (m : HeaderMap V) (b : Bytes)
      → IsSorted c.cmp m
      → is_empty m ≡ false
      → map_to_empty_or_serialized c m ≡ ok b
      → from_bytes c b ≡ ok m
  unfolding map_to_empty_or_serialized
  from_bytes-map_to_empty_or_serialized m b s n h = from_bytes-to_vec m b s (rw n at h)

  -- The empty map is written as no bytes, and no bytes are no map.
  pub from_bytes_empty :
      (map_to_empty_or_serialized c new ≡ ok []) × ((x : X) × (from_bytes c [] ≡ err x))
  unfolding map_to_empty_or_serialized from_bytes is_empty OrderedMap.is_empty
  from_bytes_empty = (refl, (L.from_slice-nil.0, rw L.from_slice-nil.1))

  -- Bytes that are read as a header map have no key twice among their entries.
  pub from_bytes-HasUniqueKeys :
      (es m : HeaderMap V) (b : Bytes)
      → c.from_slice b ≡ ok (entries es)
      → from_bytes c b ≡ ok m
      → HasUniqueKeys c.cmp es
  unfolding from_bytes deserialize
  from_bytes-HasUniqueKeys es m b r h = L.unique_map_unique es m (rw r at h)
