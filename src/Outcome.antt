-- ===== src/Outcome.antt =====
-- How a Rust function ends: `Ok`, `Err`, or a panic that unwinds through every caller.
pub mod Ensures
use aws_nitro_enclaves_cose.Prelude.{◌≡◌, refl, arith, Option, none, some}

pub data Outcome (E A : Type 0) : Type 0 where
  ok : A → Outcome E A
  err : E → Outcome E A
  panic : Outcome E A

-- The `?` operator.
infixl 5 ◌>>=◌ ◌>>◌
abbrev pub ◌>>=◌ : {E A B : Type 0} → Outcome E A → (A → Outcome E B) → Outcome E B
ok a >>= f = f a
err e >>= f = err e
panic >>= f = panic

abbrev pub ◌>>◌ : {E B : Type 0} → Outcome E (Unit {0}) → Outcome E B → Outcome E B
m >> k = m >>= λ _. k

-- `Result::map_err`
abbrev pub map_err : {E F A : Type 0} → (E → F) → Outcome E A → Outcome F A
map_err f (ok a) = ok a
map_err f (err e) = err (f e)
map_err f panic = panic

-- `Result::map`
abbrev pub map_ok : {E A B : Type 0} → (A → B) → Outcome E A → Outcome E B
map_ok f (ok a) = ok (f a)
map_ok f (err e) = err e
map_ok f panic = panic

-- `Option::unwrap`
abbrev pub unwrap : {E A : Type 0} → Option A → Outcome E A
unwrap (some a) = ok a
unwrap none = panic

-- `ok_or`, as a match with an early return
abbrev pub ok_or : {E A : Type 0} → E → Option A → Outcome E A
ok_or e (some a) = ok a
ok_or e none = err e

pub >>=-eq-ok :
    {E A B : Type 0} (r : Outcome E A) (next : A → Outcome E B) {y : B}
    → (r >>= next) ≡ ok y
    → (x : A) × (r ≡ ok x) × (next x ≡ ok y)
>>=-eq-ok panic next e = cc
>>=-eq-ok (err x) next e = cc
>>=-eq-ok (ok x) next e = (x, refl, e)

pub map_err-eq-ok :
    {E F A : Type 0} (g : E → F) (m : Outcome E A) {a : A} → map_err g m ≡ ok a → m ≡ ok a
map_err-eq-ok g m h = ground arith

-- The same inversion, for a proof that goes on with the parts.
pub bind-elim :
    {E A B P : Type 0} (m : Outcome E A) (f : A → Outcome E B) {b : B}
    → (m >>= f) ≡ ok b
    → ((a : A) → m ≡ ok a → f a ≡ ok b → P)
    → P
bind-elim m f e next = let (a, p, q) = >>=-eq-ok m f e in next a p q

pub ok-injective : {E A : Type 0} {a b : A} → ◌≡◌ {A = Outcome E A} (ok a) (ok b) → a ≡ b
ok-injective e = cc

-- An error of `map_err` is one that was mapped.
pub map_err-eq-err :
    {E F A : Type 0} (g : E → F) (m : Outcome E A) {f : F}
    → map_err g m ≡ err f
    → (e : E) × (m ≡ err e) × (f ≡ g e)
map_err-eq-err g (ok a) h = cc
map_err-eq-err g (err e) h = (e, refl, cc)
map_err-eq-err g panic h = cc

-- An error of a chain comes from its first call or from the rest.
pub err-elim :
    {E A B P : Type 0} (m : Outcome E A) (f : A → Outcome E B) {e : E}
    → (m >>= f) ≡ err e
    → (m ≡ err e → P)
    → ((a : A) → m ≡ ok a → f a ≡ err e → P)
    → P
err-elim (ok a) f h first next = next a refl h
err-elim (err x) f h first next = first cc
err-elim panic f h first next = cc

pub err-injective : {E A : Type 0} {a b : E} → ◌≡◌ {A = Outcome E A} (err a) (err b) → a ≡ b
err-injective e = cc

pub ok_or-eq-ok : {E A : Type 0} (e : E) (o : Option A) {a : A} → ok_or e o ≡ ok a → o ≡ some a
ok_or-eq-ok e (some x) h = cc
ok_or-eq-ok e none h = cc
