-- ===== src/Call.antt =====
-- A call on an object with inner state: a key, its TPM context, a service or a random generator.
-- The state after the call is part of the answer, also when the call fails.
use aws_nitro_enclaves_cose.Prelude.{◌≡◌, refl, ◌∙◌}
use aws_nitro_enclaves_cose.Outcome.{Outcome, ok, err, panic, map_err}

abbrev pub Call : Type 0 → Type 0 → Type 0 → Type 0
Call E K A = K → Outcome E A × K

module _ {E K A B : Type 0} where
  abbrev pub resume : Outcome E A → (A → Call E K B) → Call E K B
  resume (ok a) f k = f a k
  resume (err e) f k = (err e, k)
  resume panic f k = (panic, k)

  infixl 5 ◌>>=◌
  abbrev pub ◌>>=◌ : Call E K A → (A → Call E K B) → Call E K B
  ◌>>=◌ m f k = resume (m k).0 f (m k).1

-- A result that does not depend on the state.
abbrev pub lift : {E K A : Type 0} → Outcome E A → Call E K A
lift r k = (r, k)

-- Inversion of a successful bind.
pub >>=-eq-ok :
    {E K A B : Type 0} (m : Call E K A) (f : A → Call E K B) (k : K) {b : B}
    → ((m >>= f) k).0 ≡ ok b
    → (a : A) × ((m k).0 ≡ ok a) × ((f a (m k).1).0 ≡ ok b)
>>=-eq-ok {E} {K} {A} {B} m f k {b} h = go (m k).0 refl h
  where
    go :
        (r : Outcome E A)
        → (m k).0 ≡ r
        → (resume r f (m k).1).0 ≡ ok b
        → (a : A) × ((m k).0 ≡ ok a) × ((f a (m k).1).0 ≡ ok b)
    go (ok a) e p = (a, e, p)
    go (err x) e p = cc
    go panic e p = cc

-- `Result::map_err` on the result of a call.
abbrev pub call_err : {E F K A : Type 0} → (E → F) → Call E K A → Call F K A
call_err f m k = (map_err f (m k).0, (m k).1)

-- The same, for a proof that goes on with the parts.
pub bind-elim :
    {E K A B P : Type 0} (m : Call E K A) (f : A → Call E K B) (k : K) {b : B}
    → ((m >>= f) k).0 ≡ ok b
    → ((a : A) → (m k).0 ≡ ok a → (f a (m k).1).0 ≡ ok b → P)
    → P
bind-elim m f k e next = let (a, p, q) = >>=-eq-ok m f k e in next a p q

-- The same with the states: the one that the first call leaves is where the rest begins.
pub state-elim :
    {E K A B P : Type 0} (m : Call E K A) (f : A → Call E K B) (k : K) {b : B} {t : K}
    → (m >>= f) k ≡ (ok b, t)
    → ((a : A) (l : K) → m k ≡ (ok a, l) → f a l ≡ (ok b, t) → P)
    → P
state-elim {E} {K} {A} {P} m f k {b} {t} h next = go (m k) refl h
  where
    go : (z : Outcome E A × K) → m k ≡ z → resume z.0 f z.1 ≡ (ok b, t) → P
    go (ok a, l) q e = next a l q e
    go (err x, l) q e = cc
    go (panic, l) q e = cc

-- A lifted result leaves the state as it is.
pub lift-elim :
    {E K A B P : Type 0} (r : Outcome E A) (f : A → Call E K B) (k : K) {b : B} {t : K}
    → (lift r >>= f) k ≡ (ok b, t)
    → ((a : A) → r ≡ ok a → f a k ≡ (ok b, t) → P)
    → P
lift-elim (ok a) f k h next = next a refl h
lift-elim (err x) f k h next = cc
lift-elim panic f k h next = cc

pub call_err-eq-ok :
    {E F K A : Type 0} (g : E → F) (m : Call E K A) (k : K) {a : A} {t : K}
    → call_err g m k ≡ (ok a, t)
    → m k ≡ (ok a, t)
call_err-eq-ok {E} {F} {K} {A} g m k {a} {t} h = go (m k) refl h
  where
    go :
        (z : Outcome E A × K)
        → m k ≡ z
        → ◌≡◌ {A = Outcome F A × K} (map_err g z.0, z.1) (ok a, t)
        → m k ≡ (ok a, t)
    go (ok b, l) q e = q ∙ cc
    go (err x, l) q e = cc
    go (panic, l) q e = cc

pub lift-eq-ok :
    {E K A : Type 0} (r : Outcome E A) (k : K) {a : A} {t : K}
    → lift r k ≡ (ok a, t)
    → (r ≡ ok a) × (k ≡ t)
lift-eq-ok r k h = (cc, cc)

-- An error of a chain comes from its first call or from the rest.
pub err-elim :
    {E K A B P : Type 0} (m : Call E K A) (f : A → Call E K B) (k : K) {e : E}
    → ((m >>= f) k).0 ≡ err e
    → ((m k).0 ≡ err e → P)
    → ((a : A) → (m k).0 ≡ ok a → (f a (m k).1).0 ≡ err e → P)
    → P
err-elim {E} {A} {P} m f k {e} h first next = go (m k).0 refl h
  where
    go : (r : Outcome E A) → (m k).0 ≡ r → (resume r f (m k).1).0 ≡ err e → P
    go (ok a) q p = next a q p
    go (err x) q p = first cc
    go panic q p = cc

-- The three ways in which a chain goes on from a call, for a property of where it ends.
pub resume-cases :
    {E K A B : Type 0} (R : Outcome E B × K → Type 0) (r : Outcome E A) (f : A → Call E K B) (k : K)
    → ((a : A) → r ≡ ok a → R (f a k))
    → ((e : E) → R (err e, k))
    → R (panic, k)
    → R (resume r f k)
resume-cases R (ok a) f k on_ok on_err on_panic = on_ok a refl
resume-cases R (err e) f k on_ok on_err on_panic = on_err e
resume-cases R panic f k on_ok on_err on_panic = on_panic
