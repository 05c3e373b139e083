-- ===== src/Serde/Laws.antt =====
-- What the crate relies on of serde_cbor, serde_bytes and serde_with, as their documents state it.
use aws_nitro_enclaves_cose.Prelude.{ℕ, ℤ, Bytes, String, List, [], ◌∷◌, ◌≡◌, none, some}
use aws_nitro_enclaves_cose.Outcome.{ok, err}
use aws_nitro_enclaves_cose.Outcome.Ensures.{Total}
use aws_nitro_enclaves_cose.OrderedMap.{OrderedMap}
use aws_nitro_enclaves_cose.OrderedMap.Order.{IsLawful}
use aws_nitro_enclaves_cose.OrderedMap.Entries.{HasUniqueKeys, insert_all}
use aws_nitro_enclaves_cose.Serde.{
  Item, Items, Cbor, bytes, entries, seq, tagged, nil, cons, integer, byte_string,
}

-- A sequence has an item for each name.
abbrev pub SameLength : {V : Type 0} → List String → Items V → Type 0
SameLength [] nil = Unit
SameLength [] (cons i is) = ⊥
SameLength (n ∷ ns) nil = ⊥
SameLength (n ∷ ns) (cons i is) = SameLength ns is

pub record CborLaws {X V : Type 0} (c : Cbor X V) : Type 0 where
  pub view-of_integer : (z : ℤ) → c.view (c.of_integer z) ≡ integer z
  pub view-of_bytes : (b : Bytes) → c.view (c.of_bytes b) ≡ byte_string b
  pub ordered : IsLawful c.cmp
  -- What was written is read back.
  pub from_slice-to_vec : (i : Item V) (b : Bytes) → c.to_vec i ≡ ok b → c.from_slice b ≡ ok i
  -- There is no item in an empty slice.
  pub from_slice-nil : (x : X) × (c.from_slice [] ≡ err x)
  pub untag-tagged : (t : ℕ) (i : Item V) → c.untag (tagged t i) ≡ (some t, i)
  pub untag-seq : (is : Items V) → c.untag (seq is) ≡ (none, seq is)
  pub byte_buf-bytes : (b : Bytes) → c.byte_buf (bytes b) ≡ ok b
  -- Entries with different keys make the map, and a key that stands twice is an error.
  pub unique_map-entries :
      (es : OrderedMap V V)
      → HasUniqueKeys c.cmp es
      → c.unique_map (entries es) ≡ ok (insert_all c.cmp es [])
  pub unique_map_unique :
      (es m : OrderedMap V V) → c.unique_map (entries es) ≡ ok m → HasUniqueKeys c.cmp es
  pub struct_fields-seq :
      (names : List String) (is : Items V)
      → SameLength names is
      → c.struct_fields names (seq is) ≡ ok is
  -- A sequence must be read to its end.
  pub end_seq-nil : c.end_seq nil ≡ ok tt
  pub end_seq-eq-ok : (is : Items V) → c.end_seq is ≡ ok tt → is ≡ nil

-- Reading and writing may fail but do not panic.
pub record IsTotal {X V : Type 0} (c : Cbor X V) : Type 0 where
  pub to_vec-Total : (i : Item V) → Total (c.to_vec i)
  pub from_slice-Total : (b : Bytes) → Total (c.from_slice b)
  pub byte_buf-Total : (i : Item V) → Total (c.byte_buf i)
  pub unique_map-Total : (i : Item V) → Total (c.unique_map i)
  pub struct_fields-Total : (names : List String) (i : Item V) → Total (c.struct_fields names i)
  pub end_seq-Total : (is : Items V) → Total (c.end_seq is)
