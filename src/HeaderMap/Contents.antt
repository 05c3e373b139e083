-- ===== src/HeaderMap/Contents.antt =====
-- A header map as a finite map: what it holds, and that no order of its entries is left.
use mathlib.Core.List.{Memᴰ, Permᴰ}
use aws_nitro_enclaves_cose.Prelude.{Bytes, ◌≡◌, ◌↔◌, ◌∙◌, sym, ap, [], some}
use aws_nitro_enclaves_cose.Outcome.{ok, ok-injective}
use aws_nitro_enclaves_cose.OrderedMap.Entries.{HasUniqueKeys, insert_all}
use aws_nitro_enclaves_cose.OrderedMap.Permuted.{HasUniqueKeys-Perm, insert_all-Perm}
use aws_nitro_enclaves_cose.OrderedMap.Contents.{get-insert_all_iff}
use aws_nitro_enclaves_cose.Serde.{Cbor, entries}
use aws_nitro_enclaves_cose.Serde.Laws.{CborLaws}
use aws_nitro_enclaves_cose.HeaderMap.{HeaderMap, get, deserialize, from_bytes}

module _ {X V : Type 0} (c : Cbor X V) (L : CborLaws c) where
  deserialize-eq-ok :
      (es m : HeaderMap V)
      → deserialize c (entries es) ≡ ok m
      → HasUniqueKeys c.cmp es × (insert_all c.cmp es [] ≡ m)
  unfolding deserialize
  deserialize-eq-ok es m e =
      let unique = L.unique_map_unique es m e in
      (unique, ok-injective (sym (L.unique_map-entries es unique) ∙ e))

  item_of :
      (b : Bytes) (es m : HeaderMap V)
      → c.from_slice b ≡ ok (entries es)
      → from_bytes c b ≡ ok m
      → deserialize c (entries es) ≡ ok m
  unfolding from_bytes
  item_of b es m r e = rw r at e

  -- The header map that `from_bytes` reads holds just the entries that are written: `get` finds a
  -- value for a key exactly if the two stand among the entries.
  pub get-from_bytes_iff :
      (b : Bytes) (es m : HeaderMap V) (k v : V)
      → c.from_slice b ≡ ok (entries es)
      → from_bytes c b ≡ ok m
      → (get c k m ≡ some v) ↔ Memᴰ (k, v) es
  unfolding get
  get-from_bytes_iff b es m k v r e =
      let (unique, m_is) = deserialize-eq-ok es m (item_of b es m r e) in
      rw (← m_is) (get-insert_all_iff c.cmp L.ordered k v es unique)

  -- Bytes with the same entries in another order are the same header map.
  pub from_bytes-Perm :
      (b b' : Bytes) (es fs m : HeaderMap V)
      → c.from_slice b ≡ ok (entries es)
      → c.from_slice b' ≡ ok (entries fs)
      → Permᴰ es fs
      → from_bytes c b ≡ ok m
      → from_bytes c b' ≡ ok m
  unfolding from_bytes deserialize
  from_bytes-Perm b b' es fs m r r' p e =
      let (unique, m_is) = deserialize-eq-ok es m (item_of b es m r e) in
      rw r' (
        L.unique_map-entries fs (HasUniqueKeys-Perm c.cmp L.ordered p unique)
        ∙ ap ok (sym (insert_all-Perm c.cmp L.ordered p unique []) ∙ m_is))
