-- ===== src/OrderedMap.antt =====
-- `std::collections::BTreeMap`, as far as src/header_map.rs uses it: the entries in the order of
-- their keys, which is the order of iteration.
pub mod Order
pub mod Lookup
pub mod Entries
pub mod Permuted
pub mod Contents
use aws_nitro_enclaves_cose.Prelude.{List, [], ◌∷◌, Option, none, some, Bool, true, false, Ordering}
use Prim.Native.Nat.Ordering.{lt, eq, gt}

abbrev pub OrderedMap : Type 0 → Type 0 → Type 0
OrderedMap K V = List (K × V)

module _ {K V : Type 0} (cmp : K → K → Ordering) where
  -- `BTreeMap::get`
  unfoldable pub get : K → OrderedMap K V → Option V
  get k [] = none
  get k ((j, v) ∷ m) = elim (cmp k j) [ lt ↦ none | eq ↦ some v | gt ↦ get k m ]

  -- The map after `BTreeMap::insert`. The key of an entry that is there is kept.
  unfoldable pub insert : K → V → OrderedMap K V → OrderedMap K V
  insert k v [] = (k, v) ∷ []
  insert k v ((j, w) ∷ m) = elim (cmp k j) [
    | lt ↦ (k, v) ∷ (j, w) ∷ m
    | eq ↦ (j, v) ∷ m
    | gt ↦ (j, w) ∷ insert k v m
  ]

-- `BTreeMap::is_empty`
unfoldable pub is_empty {ℓ} : {A : Type ℓ} → List A → Bool
is_empty [] = true
is_empty (x ∷ xs) = false
