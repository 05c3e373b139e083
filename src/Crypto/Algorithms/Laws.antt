-- ===== src/Crypto/Algorithms/Laws.antt =====
-- The conversions of the algorithm enums against one another.
use text.Mathlib.TextEquality.{eq_iff}
use aws_nitro_enclaves_cose.Prelude.{
  ℤ, pos, negsuc, ◌+◌, ◌*◌, Bytes, String, some, ◌≡◌, ◌↔◌, refl, arith, length,
}
use aws_nitro_enclaves_cose.Prelude.Int.{as_i8, low_byte}
use aws_nitro_enclaves_cose.Outcome.{ok}
use aws_nitro_enclaves_cose.Crypto.Algorithms.{
  SignatureAlgorithm, es256, es384, es512, discriminant, from_str, display, CoseAlgorithm,
  aes_gcm_96_128_128, aes_gcm_96_128_192, aes_gcm_96_128_256, value, from_value, gcm, cose_alg,
}

from_str-display : {X : Type 0} (a : SignatureAlgorithm) → from_str {X = X} (display a) ≡ ok a
unfolding from_str display
from_str-display es256 = refl
from_str-display es384 = refl
from_str-display es512 = refl

from_str-eq-ok :
    {X : Type 0} (s : String) (a : SignatureAlgorithm) → from_str {X = X} s ≡ ok a → s ≡ display a
unfolding from_str display
from_str-eq-ok s a h = ground (arith, eq_iff s "ES256", eq_iff s "ES384", eq_iff s "ES512")

-- A text parses as a signature algorithm exactly when it is the algorithm's printed name.
pub from_str_iff :
    {X : Type 0} (s : String) (a : SignatureAlgorithm)
    → (from_str {X = X} s ≡ ok a) ↔ (s ≡ display a)
from_str_iff s a = (from_str-eq-ok s a, λ e. rw e (from_str-display a))

pub discriminant-injective : (a b : SignatureAlgorithm) → discriminant a ≡ discriminant b → a ≡ b
unfolding discriminant
discriminant-injective a b h = ground arith

-- The value of an algorithm gives the algorithm back.
pub from_value-value : (a : CoseAlgorithm) → from_value (as_i8 (pos (value a))) ≡ some a
unfolding from_value value as_i8
from_value-value aes_gcm_96_128_128 = refl
from_value-value aes_gcm_96_128_192 = refl
from_value-value aes_gcm_96_128_256 = refl

-- Cut to an i8, an integer names the algorithm whose value its low eight bits are.
pub from_value-as_i8_iff :
    (z : ℤ) (a : CoseAlgorithm) → (from_value (as_i8 z) ≡ some a) ↔ (low_byte z ≡ value a)
unfolding from_value value as_i8
from_value-as_i8_iff (pos n) a = ground arith
from_value-as_i8_iff (negsuc n) a = ground arith

-- A key gets the cipher whose value is a exactly when it is 8 + 8 a bytes long, which is 16, 24 or
-- 32: its length alone decides.
pub cose_alg-eq-some_iff :
    (key : Bytes) (a : CoseAlgorithm) → (cose_alg gcm key ≡ some a) ↔ (length key ≡ 8 + 8 * value a)
unfolding cose_alg value
cose_alg-eq-some_iff key a = ground arith
