-- ===== src/OrderedMap/Lookup.antt =====
-- A map reads back what was inserted.
use aws_nitro_enclaves_cose.Prelude.{[], ◌∷◌, ◌≡◌, ◌≢◌, refl, none, some, Ordering, arith}
use aws_nitro_enclaves_cose.OrderedMap.{OrderedMap, get, insert}
use aws_nitro_enclaves_cose.OrderedMap.Order.{IsLawful, Above, IsSorted}

module _ {K V : Type 0} (cmp : K → K → Ordering) (L : IsLawful cmp) where
  pub get-insert_self : (k : K) (v : V) (m : OrderedMap K V) → get cmp k (insert cmp k v m) ≡ some v
  unfolding get insert
  get-insert_self k v [] = rw (L.cmp_refl, get)
  get-insert_self k v ((j, w) ∷ m) = ground (arith, get-insert_self k v m, L.cmp_refl k)

  pub get-insert_ne :
      (k j : K) (v : V) (m : OrderedMap K V)
      → j ≢ k
      → IsSorted cmp m
      → get cmp j (insert cmp k v m) ≡ get cmp j m
  unfolding get insert
  get-insert_ne k j v [] n s = ground (arith, L.eq_of_cmp j k)
  get-insert_ne k j v ((i, w) ∷ m) n s = ground (
    arith,
    get-insert_ne k j v m n s.1,
    L.eq_of_cmp j k,
    L.eq_of_cmp k i,
    L.lt_of_gt j k,
    L.lt_trans j k i,
  )

  -- A key below all of a map's keys is not in it.
  pub get-Above : (k : K) (m : OrderedMap K V) → Above cmp k m → get cmp k m ≡ none
  unfolding get
  get-Above k [] p = refl
  get-Above k ((j, v) ∷ m) p = rw (p.0, get)
