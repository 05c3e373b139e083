-- ===== src/OrderedMap/Permuted.antt =====
-- A map does not remember the order in which its entries came.
use Prim.Native.Nat.Ordering.{eq}
use mathlib.Core.List.{Permᴰ}
use mathlib.Core.List.Permᴰ.{nil, cons, swap, trans}
use aws_nitro_enclaves_cose.Prelude.{List, [], ◌∷◌, ◌≡◌, refl, ◌∙◌, ap, Ordering, arith}
use mathlib.Core.Path.{subst}
use aws_nitro_enclaves_cose.OrderedMap.{OrderedMap, insert}
use aws_nitro_enclaves_cose.OrderedMap.Order.{IsLawful}
use aws_nitro_enclaves_cose.OrderedMap.Entries.{insert_all, Absent, HasUniqueKeys}

module _ {K : Type 0} (cmp : K → K → Ordering) (L : IsLawful cmp) where
  differ_sym : (k j : K) → ¬ (cmp k j ≡ eq) → ¬ (cmp j k ≡ eq)
  differ_sym k j n e = n (subst (λ (x : K). cmp x j ≡ eq) (L.eq_of_cmp j k e) (L.cmp_refl j))

module _ {K V : Type 0} (cmp : K → K → Ordering) (L : IsLawful cmp) where
  -- Entries with different keys may be inserted in either order.
  insert-insert :
      (k j : K) (v w : V) (m : OrderedMap K V)
      → ¬ (cmp k j ≡ eq)
      → insert cmp k v (insert cmp j w m) ≡ insert cmp j w (insert cmp k v m)
  unfolding insert
  insert-insert k j v w [] n = ground (arith, L.gt_of_lt k j, L.lt_of_gt k j)
  insert-insert k j v w ((i, u) ∷ m) n = ground (
    arith,
    insert-insert k j v w m n,
    L.gt_of_lt k j,
    L.lt_of_gt k j,
    L.gt_of_lt k i,
    L.lt_of_gt k i,
    L.gt_of_lt j i,
    L.lt_of_gt j i,
    L.lt_trans k i j,
    L.lt_trans j i k,
    L.gt_of_lt j k,
    L.lt_of_gt j k,
    L.eq_of_cmp k i,
    L.eq_of_cmp j i,
    L.cmp_refl i,
  )

  Absent-Perm : (k : K) {es fs : List (K × V)} → Permᴰ es fs → Absent cmp k es → Absent cmp k fs
  Absent-Perm k nil a = tt
  Absent-Perm k (cons e p) (n, a) =
      (subst (λ (x : K × V). ¬ (cmp k x.0 ≡ eq)) e n, Absent-Perm k p a)
  Absent-Perm k (swap e f) (n, (n', a)) = (
    subst (λ (x : K × V). ¬ (cmp k x.0 ≡ eq)) f n',
    (subst (λ (x : K × V). ¬ (cmp k x.0 ≡ eq)) e n, a),
  )
  Absent-Perm k (trans p q) a = Absent-Perm k q (Absent-Perm k p a)

  pub HasUniqueKeys-Perm :
      {es fs : List (K × V)} → Permᴰ es fs → HasUniqueKeys cmp es → HasUniqueKeys cmp fs
  HasUniqueKeys-Perm nil u = tt
  HasUniqueKeys-Perm (cons {b} {l₂} e p) (a, u) =
      (subst (λ (x : K × V). Absent cmp x.0 l₂) e (Absent-Perm _ p a), HasUniqueKeys-Perm p u)
  HasUniqueKeys-Perm (swap {a} {b} {a'} {b'} {l} e f) ((n, p), (q, u)) = (
    (
      subst (λ (x : K × V). ¬ (cmp x.0 b'.0 ≡ eq)) f
          (subst (λ (x : K × V). ¬ (cmp b.0 x.0 ≡ eq)) e (differ_sym cmp L a.0 b.0 n)),
      subst (λ (x : K × V). Absent cmp x.0 l) f q,
    ),
    (subst (λ (x : K × V). Absent cmp x.0 l) e p, u),
  )
  HasUniqueKeys-Perm (trans p q) u = HasUniqueKeys-Perm q (HasUniqueKeys-Perm p u)

  -- Whatever the order of the entries, the map is the same, where no key stands twice.
  pub insert_all-Perm :
      {es fs : List (K × V)}
      → Permᴰ es fs
      → HasUniqueKeys cmp es
      → (m : OrderedMap K V) → insert_all cmp es m ≡ insert_all cmp fs m
  unfolding insert_all
  insert_all-Perm nil u m = refl
  insert_all-Perm (cons {a} {l₂} e p) (_, u) m =
      insert_all-Perm p u (insert cmp a.0 a.1 m)
      ∙ ap (λ (x : K × V). insert_all cmp l₂ (insert cmp x.0 x.1 m)) e
  insert_all-Perm (swap {a} {b} {l} e f) ((n, _), _) m =
      rw (← e, ← f)
        (ap (insert_all cmp l) (insert-insert b.0 a.0 b.1 a.1 m (differ_sym cmp L a.0 b.0 n)))
  insert_all-Perm (trans p q) u m =
      insert_all-Perm p u m ∙ insert_all-Perm q (HasUniqueKeys-Perm p u) m
