-- ===== src/OrderedMap/Order.antt =====
-- What `BTreeMap` asks of its keys' order, and the order of the entries as an invariant.
use Prim.Native.Nat.Ordering.{lt, eq, gt}
use aws_nitro_enclaves_cose.Prelude.{[], ◌∷◌, ◌≡◌, refl, Ordering}
use aws_nitro_enclaves_cose.OrderedMap.{OrderedMap, insert}

-- The documented laws of `Ord`, with its `==` read as `≡`.
pub record IsLawful {K : Type 0} (cmp : K → K → Ordering) : Type 0 where
  pub lt_trans : (i j k : K) → cmp i j ≡ lt → cmp j k ≡ lt → cmp i k ≡ lt
  pub gt_of_lt : (j k : K) → cmp j k ≡ lt → cmp k j ≡ gt
  pub lt_of_gt : (j k : K) → cmp j k ≡ gt → cmp k j ≡ lt
  pub cmp_refl : (k : K) → cmp k k ≡ eq
  pub eq_of_cmp : (j k : K) → cmp j k ≡ eq → j ≡ k

module _ {K V : Type 0} (cmp : K → K → Ordering) where
  -- Every key of the map is above `k`.
  abbrev pub Above : K → OrderedMap K V → Type 0
  Above k [] = Unit
  Above k ((j, v) ∷ m) = (cmp k j ≡ lt) × Above k m

  -- The keys rise, so no key stands twice.
  abbrev pub IsSorted : OrderedMap K V → Type 0
  IsSorted [] = Unit
  IsSorted ((j, v) ∷ m) = Above j m × IsSorted m

module _ {K V : Type 0} (cmp : K → K → Ordering) (L : IsLawful cmp) where
  pub Above-trans : (a b : K) (m : OrderedMap K V) → cmp a b ≡ lt → Above cmp b m → Above cmp a m
  Above-trans a b [] h p = tt
  Above-trans a b ((j, v) ∷ m) h (p, q) = (L.lt_trans a b j h p, Above-trans a b m h q)

  Above-insert :
      (a k : K) (v : V) (m : OrderedMap K V)
      → cmp a k ≡ lt
      → Above cmp a m
      → Above cmp a (insert cmp k v m)
  unfolding insert
  Above-insert a k v [] h p = (h, tt)
  Above-insert a k v ((j, w) ∷ m) h (p, q) = go (cmp k j) (Above-insert a k v m h q)
    where
      go :
          (o : Ordering)
          → Above cmp a (insert cmp k v m)
          → Above cmp a (elim o [
            | lt ↦ (k, v) ∷ (j, w) ∷ m
            | eq ↦ (j, v) ∷ m
            | gt ↦ (j, w) ∷ insert cmp k v m
          ])
      go lt ih = (h, (p, q))
      go eq ih = (p, q)
      go gt ih = (p, ih)

  -- An insertion keeps the order.
  pub insert-IsSorted :
      (k : K) (v : V) (m : OrderedMap K V) → IsSorted cmp m → IsSorted cmp (insert cmp k v m)
  unfolding insert
  insert-IsSorted k v [] s = (tt, tt)
  insert-IsSorted k v ((j, w) ∷ m) (p, s) = go (cmp k j) refl (insert-IsSorted k v m s)
    where
      go :
          (o : Ordering)
          → cmp k j ≡ o
          → IsSorted cmp (insert cmp k v m)
          → IsSorted cmp (elim o [
            | lt ↦ (k, v) ∷ (j, w) ∷ m
            | eq ↦ (j, v) ∷ m
            | gt ↦ (j, w) ∷ insert cmp k v m
          ])
      go lt e ih = ((e, Above-trans k j m e p), (p, s))
      go eq e ih = (p, s)
      go gt e ih = (Above-insert j k v m (L.lt_of_gt k j e) p, ih)
