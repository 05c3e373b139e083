-- ===== src/Outcome/Ensures.antt =====
-- What a function of Rust may end with: postconditions of its value and of its error, where a panic
-- meets none. Each way to go on has a rule.
use aws_nitro_enclaves_cose.Prelude.{◌≡◌, ◌≢◌, refl, Option, none, some}
use aws_nitro_enclaves_cose.Call.{Call, resume}
use aws_nitro_enclaves_cose.Outcome.{Outcome, ok, err, panic, ◌>>=◌, map_err, ok_or}

pub data Ensures {E A : Type 0} (P : A → Type 0) (Q : E → Type 0) : Outcome E A → Type 0 where
  returns : {a : A} → P a → Ensures P Q (ok a)
  throws : {e : E} → Q e → Ensures P Q (err e)

-- No panic, and nothing more.
abbrev pub Total : {E A : Type 0} → Outcome E A → Type 0
Total {E} {A} = Ensures {E = E} {A = A} (λ _. Unit) (λ _. Unit)

pub Ensures-not_panic :
    {E A : Type 0} {P : A → Type 0} {Q : E → Type 0} {r : Outcome E A} → Ensures P Q r → r ≢ panic
Ensures-not_panic (returns p) = λ e. cc
Ensures-not_panic (throws q) = λ e. cc

-- The rule for `?`: the rest may use what the first part returned.
pub Ensures-bind :
    {E A B : Type 0} {P : A → Type 0} {P' : B → Type 0} {Q Q' : E → Type 0} {r : Outcome E A}
    {f : A → Outcome E B}
    → Ensures P Q r
    → ((e : E) → Q e → Q' e)
    → ((a : A) → r ≡ ok a → P a → Ensures P' Q' (f a))
    → Ensures P' Q' (r >>= f)
Ensures-bind (returns {a} p) weaken next = next a refl p
Ensures-bind (throws {e} q) weaken next = throws (weaken e q)

pub Ensures-map_err :
    {E F A : Type 0} {P : A → Type 0} {Q : E → Type 0} {Q' : F → Type 0} (g : E → F)
    {r : Outcome E A}
    → Ensures P Q r
    → ((e : E) → Q e → Q' (g e))
    → Ensures P Q' (map_err g r)
Ensures-map_err g (returns p) weaken = returns p
Ensures-map_err g (throws {e} q) weaken = throws (weaken e q)

pub Ensures-ok_or :
    {E A : Type 0} {Q : E → Type 0} (e : E) (o : Option A) → Q e → Ensures (λ _. Unit) Q (ok_or e o)
Ensures-ok_or e none q = throws q
Ensures-ok_or e (some a) q = returns tt

pub Ensures-weaken :
    {E A : Type 0} {P P' : A → Type 0} {Q Q' : E → Type 0} {r : Outcome E A}
    → Ensures P Q r
    → ((a : A) → r ≡ ok a → P a → P' a)
    → ((e : E) → Q e → Q' e)
    → Ensures P' Q' r
Ensures-weaken (returns {a} p) on_ok on_err = returns (on_ok a refl p)
Ensures-weaken (throws {e} q) on_ok on_err = throws (on_err e q)

-- A panic behind `?` comes from the rest, where the first part has none.
pub panic-elim :
    {E A B R : Type 0} {P : A → Type 0} {Q : E → Type 0} {r : Outcome E A} {f : A → Outcome E B}
    → Ensures P Q r
    → (r >>= f) ≡ panic
    → ((a : A) → r ≡ ok a → f a ≡ panic → R)
    → R
panic-elim (returns {a} p) e next = next a refl e
panic-elim (throws q) e next = cc

-- To go on from a call by its two ways to end.
pub resume-elim :
    {E K A B : Type 0} {P : A → Type 0} {Q : E → Type 0} (R : Outcome E B × K → Type 0)
    {r : Outcome E A} (f : A → Call E K B) (s : K)
    → Ensures P Q r
    → ((a : A) → r ≡ ok a → P a → R (f a s))
    → ((e : E) → r ≡ err e → Q e → R (err e, s))
    → R (resume r f s)
resume-elim R f s (returns {a} p) on_ok on_err = on_ok a refl p
resume-elim R f s (throws {e} q) on_ok on_err = on_err e refl q

-- The two rules where nothing but the lack of a panic is asked.
pub Total-bind :
    {E A B : Type 0} {r : Outcome E A} {f : A → Outcome E B}
    → Total r
    → ((a : A) → Total (f a))
    → Total (r >>= f)
Total-bind t next = Ensures-bind t (λ e q. q) λ a e p. next a

pub Total-map_err : {E F A : Type 0} (g : E → F) {r : Outcome E A} → Total r → Total (map_err g r)
Total-map_err g t = Ensures-map_err g t λ e q. q

-- What has no panic meets the postconditions that its value and its error are known to meet.
pub Ensures-of_Total :
    {E A : Type 0} {P : A → Type 0} {Q : E → Type 0} {r : Outcome E A}
    → Total r
    → ((a : A) → r ≡ ok a → P a)
    → ((e : E) → r ≡ err e → Q e)
    → Ensures P Q r
Ensures-of_Total (returns {a} p) on_ok on_err = returns (on_ok a refl)
Ensures-of_Total (throws {e} q) on_ok on_err = throws (on_err e refl)

-- A call and what follows it have no panic.
pub Total-resume :
    {E K A B : Type 0} {r : Outcome E A} (f : A → Call E K B) (s : K)
    → Total r
    → ((a : A) → r ≡ ok a → Total (f a s).0)
    → Total (resume r f s).0
Total-resume f s (returns {a} p) next = next a refl
Total-resume f s (throws q) next = throws tt
