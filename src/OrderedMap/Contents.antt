-- ===== src/OrderedMap/Contents.antt =====
-- Which entries the map made of a list of entries has.
use Prim.Native.Nat.Ordering.{lt, eq, gt}
use mathlib.Core.List.{Memᴰ}
use mathlib.Core.List.Memᴰ.{head, tail}
use mathlib.Core.Path.{subst}
use aws_nitro_enclaves_cose.Prelude.{
  some-injective, List, [], ◌∷◌, ◌≡◌, ◌≢◌, ◌⊎◌, ◌↔◌, inl, inr, refl, sym, ◌∙◌, ap, Ordering, some,
}
use aws_nitro_enclaves_cose.OrderedMap.{OrderedMap, get, insert}
use aws_nitro_enclaves_cose.OrderedMap.Order.{IsLawful, IsSorted, insert-IsSorted}
use aws_nitro_enclaves_cose.OrderedMap.Lookup.{get-insert_self, get-insert_ne}
use aws_nitro_enclaves_cose.OrderedMap.Entries.{insert_all, Absent, HasUniqueKeys}

not_equal :
    {K : Type 0} (cmp : K → K → Ordering) (L : IsLawful cmp) (a b : K) → ¬ (cmp a b ≡ eq) → a ≢ b
not_equal {K} cmp L a b n p = n (subst (λ (x : K). cmp a x ≡ eq) p (L.cmp_refl a))

same_key : {K : Type 0} (cmp : K → K → Ordering) (L : IsLawful cmp) (a b : K) → (a ≡ b) ⊎ (a ≢ b)
same_key {K} cmp L a b = go (cmp a b) refl
  where
    go : (o : Ordering) → cmp a b ≡ o → (a ≡ b) ⊎ (a ≢ b)
    go eq e = inl (L.eq_of_cmp a b e)
    go lt e = inr (not_equal cmp L a b (λ f. cc))
    go gt e = inr (not_equal cmp L a b (λ f. cc))

module _ {K V : Type 0} (cmp : K → K → Ordering) (L : IsLawful cmp) where
  get-insert_all-Absent :
      (k : K) (es : List (K × V)) (m : OrderedMap K V)
      → Absent cmp k es
      → IsSorted cmp m
      → get cmp k (insert_all cmp es m) ≡ get cmp k m
  unfolding insert_all
  get-insert_all-Absent k [] m a s = refl
  get-insert_all-Absent k ((j, w) ∷ es) m (n, a) s =
      get-insert_all-Absent k es (insert cmp j w m) a (insert-IsSorted cmp L j w m s)
      ∙ get-insert_ne cmp L j k w m (λ e. n (subst (λ (x : K). cmp k x ≡ eq) e (L.cmp_refl k))) s

  get-insert_all_of :
      (k : K) (v : V) (es : List (K × V)) (m : OrderedMap K V)
      → HasUniqueKeys cmp es
      → IsSorted cmp m
      → Memᴰ (k, v) es
      → get cmp k (insert_all cmp es m) ≡ some v
  unfolding insert_all
  get-insert_all_of k v [] m u s i = elim i [ ]
  get-insert_all_of k v ((j, w) ∷ es) m (a, u) s (tail i) =
      get-insert_all_of k v es (insert cmp j w m) u (insert-IsSorted cmp L j w m s) i
  get-insert_all_of k v ((j, w) ∷ es) m (a, u) s (head e) =
      let key_is : k ≡ j = ap (λ (x : K × V). x.0) e in
      let value_is : v ≡ w = ap (λ (x : K × V). x.1) e in
      rw (key_is, value_is)
        (get-insert_all-Absent j es (insert cmp j w m) a (insert-IsSorted cmp L j w m s)
          ∙ get-insert_self cmp L j w m)

  get-insert_all-eq-some :
      (k : K) (v : V) (es : List (K × V)) (m : OrderedMap K V)
      → IsSorted cmp m
      → get cmp k (insert_all cmp es m) ≡ some v
      → Memᴰ (k, v) es ⊎ (get cmp k m ≡ some v)
  unfolding insert_all
  get-insert_all-eq-some k v [] m s e = inr e
  get-insert_all-eq-some k v ((j, w) ∷ es) m s e =
      elim (get-insert_all-eq-some k v es (insert cmp j w m) (insert-IsSorted cmp L j w m s) e) [
        | inl there ↦ inl (tail there)
        | inr found ↦ elim (same_key cmp L k j) [
          | inl same ↦
              let value_is : w ≡ v = some-injective (
                sym (get-insert_self cmp L j w m)
                ∙ subst (λ (x : K). get cmp x (insert cmp j w m) ≡ some v) same found) in
              inl (head (λ i. (same i, sym value_is i)))
          | inr differs ↦ inr (sym (get-insert_ne cmp L j k w m differs s) ∙ found)
        ]
      ]

  -- The map made of entries with different keys has just these entries.
  pub get-insert_all_iff :
      (k : K) (v : V) (es : List (K × V))
      → HasUniqueKeys cmp es
      → (get cmp k (insert_all cmp es []) ≡ some v) ↔ Memᴰ (k, v) es
  unfolding get
  get-insert_all_iff k v es u = (
    λ e. elim (get-insert_all-eq-some k v es [] tt e) [ inl there ↦ there | inr absent ↦ cc ],
    get-insert_all_of k v es [] u tt,
  )
