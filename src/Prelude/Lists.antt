-- ===== src/Prelude/Lists.antt =====
-- Byte strings are lists of native numbers: their length, their parts, and a Vec of equal bytes.
use Prim.Native.Nat.{ℕ, zero, suc, ◌+◌, ◌-◌, ◌≤◌}
use mathlib.Core.Path.{◌≡◌, refl, ap}
use mathlib.Core.List.{List, [], ◌∷◌, ◌++◌}
use native.Mathlib.Omega.{arith}
use native.Mathlib.Nat.{add-zero, add-suc}

module _ {ℓ} {A : Type ℓ} where
  abbrev pub length : List A → ℕ
  length [] = 0
  length (x ∷ xs) = suc (length xs)

  abbrev pub take : ℕ → List A → List A
  take zero xs = []
  take (suc n) [] = []
  take (suc n) (x ∷ xs) = x ∷ take n xs

  abbrev pub drop : ℕ → List A → List A
  drop zero xs = xs
  drop (suc n) [] = []
  drop (suc n) (x ∷ xs) = drop n xs

  abbrev pub replicate : ℕ → A → List A
  replicate zero a = []
  replicate (suc n) a = a ∷ replicate n a

  pub length-append : (xs ys : List A) → length (xs ++ ys) ≡ length xs + length ys
  length-append [] ys = omega arith
  length-append (x ∷ xs) ys = omega (arith, length-append xs ys)

  pub length-replicate : (n : ℕ) (a : A) → length (replicate n a) ≡ n
  length-replicate zero a = refl
  length-replicate (suc n) a = ap suc (length-replicate n a)

  pub take-append : (xs ys : List A) → take (length xs) (xs ++ ys) ≡ xs
  take-append [] ys = refl
  take-append (x ∷ xs) ys = ap (λ (t : List A). x ∷ t) (take-append xs ys)

  pub drop-append : (xs ys : List A) → drop (length xs) (xs ++ ys) ≡ ys
  drop-append [] ys = refl
  drop-append (x ∷ xs) ys = drop-append xs ys

module _ {ℓ} {A : Type ℓ} where
  -- A cut that reaches into the second list.
  pub take-append_add : (xs ys : List A) (k : ℕ) → take (k + length xs) (xs ++ ys) ≡ xs ++ take k ys
  take-append_add [] ys k = rw (add-zero k)
  take-append_add (x ∷ xs) ys k =
      rw (add-suc k (length xs)) (ap (λ (t : List A). x ∷ t) (take-append_add xs ys k))

  pub drop-append_add : (xs ys : List A) (k : ℕ) → drop (k + length xs) (xs ++ ys) ≡ drop k ys
  drop-append_add [] ys k = rw (add-zero k)
  drop-append_add (x ∷ xs) ys k = rw (add-suc k (length xs)) (drop-append_add xs ys k)

  pub take-replicate : (k n : ℕ) (a : A) → k ≤ n → take k (replicate n a) ≡ replicate k a
  take-replicate zero n a h = refl
  take-replicate (suc k) zero a h = elim h [ ]
  take-replicate (suc k) (suc n) a h =
      ap (λ (t : List A). a ∷ t) (take-replicate k n a (omega arith))

  pub drop-replicate : (k n m : ℕ) (a : A) → n ≡ k + m → drop k (replicate n a) ≡ replicate m a
  drop-replicate zero n m a h = ap (λ (t : ℕ). replicate t a) (omega arith)
  drop-replicate (suc k) zero m a h = absurd (omega arith)
  drop-replicate (suc k) (suc n) m a h = drop-replicate k n m a (omega arith)

  pub take-length : (xs : List A) → take (length xs) xs ≡ xs
  take-length [] = refl
  take-length (x ∷ xs) = ap (λ (t : List A). x ∷ t) (take-length xs)

  pub length-take_le : (k : ℕ) (xs : List A) → k ≤ length xs → length (take k xs) ≡ k
  length-take_le zero xs h = refl
  length-take_le (suc k) [] h = elim h [ ]
  length-take_le (suc k) (x ∷ xs) h = ap suc (length-take_le k xs (omega arith))

  pub length-drop_eq : (k : ℕ) (xs : List A) → length (drop k xs) ≡ length xs - k
  length-drop_eq zero xs = omega arith
  length-drop_eq (suc k) [] = omega arith
  length-drop_eq (suc k) (x ∷ xs) = omega (arith, length-drop_eq k xs)

  pub take-append-drop : (n : ℕ) (xs : List A) → take n xs ++ drop n xs ≡ xs
  take-append-drop zero xs = refl
  take-append-drop (suc n) [] = refl
  take-append-drop (suc n) (x ∷ xs) = rw (take-append-drop n xs)
