-- ===== src/OrderedMap/Entries.antt =====
-- A map from a list of entries, as a deserializer builds it.
use Prim.Native.Nat.Ordering.{lt, eq}
use aws_nitro_enclaves_cose.Prelude.{
  List, [], ◌∷◌, ◌++◌, ◌≡◌, refl, sym, append-nil, append_assoc, Ordering, arith,
}
use aws_nitro_enclaves_cose.OrderedMap.{OrderedMap, insert}
use aws_nitro_enclaves_cose.OrderedMap.Order.{IsLawful, Above, IsSorted}

module _ {K V : Type 0} (cmp : K → K → Ordering) where
  -- The entries inserted one after another.
  unfoldable pub insert_all : List (K × V) → OrderedMap K V → OrderedMap K V
  insert_all [] m = m
  insert_all ((k, v) ∷ es) m = insert_all es (insert cmp k v m)

  -- No later entry has the key `k`.
  abbrev pub Absent : K → List (K × V) → Type 0
  Absent k [] = Unit
  Absent k ((j, v) ∷ es) = ¬ (cmp k j ≡ eq) × Absent k es

  -- No key stands twice.
  abbrev pub HasUniqueKeys : List (K × V) → Type 0
  HasUniqueKeys [] = Unit
  HasUniqueKeys ((k, v) ∷ es) = Absent k es × HasUniqueKeys es

module _ {K V : Type 0} (cmp : K → K → Ordering) (L : IsLawful cmp) where
  Absent-Above : (k : K) (m : OrderedMap K V) → Above cmp k m → Absent cmp k m
  Absent-Above k [] p = tt
  Absent-Above k ((j, v) ∷ m) (p, q) = (λ e. cc, Absent-Above k m q)

  pub HasUniqueKeys-IsSorted : (m : OrderedMap K V) → IsSorted cmp m → HasUniqueKeys cmp m
  HasUniqueKeys-IsSorted [] s = tt
  HasUniqueKeys-IsSorted ((j, v) ∷ m) (p, s) = (Absent-Above j m p, HasUniqueKeys-IsSorted m s)

  -- Every key of the map is below `k`.
  abbrev Below : K → OrderedMap K V → Type 0
  Below k [] = Unit
  Below k ((j, v) ∷ m) = (cmp j k ≡ lt) × Below k m

  insert-Below :
      (k : K) (v : V) (m : OrderedMap K V) → Below k m → insert cmp k v m ≡ m ++ (k, v) ∷ []
  unfolding insert
  insert-Below k v [] p = refl
  insert-Below k v ((j, w) ∷ m) (p, q) = ground (arith, L.gt_of_lt j k, insert-Below k v m q)

  Below-append :
      (k j : K) (v : V) (m : OrderedMap K V) → cmp k j ≡ lt → Below j m → Below j (m ++ (k, v) ∷ [])
  Below-append k j v [] h p = (h, tt)
  Below-append k j v ((i, w) ∷ m) h (p, q) = (p, Below-append k j v m h q)

  -- Every key of the first map is below every key of the second.
  abbrev AllBelow : OrderedMap K V → OrderedMap K V → Type 0
  AllBelow m [] = Unit
  AllBelow m ((k, v) ∷ es) = Below k m × AllBelow m es

  AllBelow-append :
      (k : K) (v : V) (m es : OrderedMap K V)
      → Above cmp k es
      → AllBelow m es
      → AllBelow (m ++ (k, v) ∷ []) es
  AllBelow-append k v m [] a b = tt
  AllBelow-append k v m ((j, w) ∷ es) (a, above) (b, below) =
      (Below-append k j v m a b, AllBelow-append k v m es above below)

  insert_all-append :
      (m es : OrderedMap K V) → AllBelow m es → IsSorted cmp es → insert_all cmp es m ≡ m ++ es
  unfolding insert_all
  insert_all-append m [] b s = sym (append-nil m)
  insert_all-append m ((k, v) ∷ es) (b, below) (a, s) =
      rw
        (
          insert-Below k v m b,
          insert_all-append (m ++ (k, v) ∷ []) es (AllBelow-append k v m es a below) s,
        )
        (append_assoc m ((k, v) ∷ []) es)

  AllBelow-nil : (es : OrderedMap K V) → AllBelow [] es
  AllBelow-nil [] = tt
  AllBelow-nil (e ∷ es) = (tt, AllBelow-nil es)

  -- A sorted map is rebuilt from its own entries.
  pub insert_all-IsSorted : (m : OrderedMap K V) → IsSorted cmp m → insert_all cmp m [] ≡ m
  insert_all-IsSorted m s = insert_all-append [] m (AllBelow-nil m) s
