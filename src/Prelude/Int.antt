-- ===== src/Prelude/Int.antt =====
-- Signed integers over the native numbers, and the cast of an `i128` to an `i8`.
use Prim.Native.Nat.{ℕ, ◌-◌, ◌%◌, ◌<◌}
use mathlib.Core.Path.{◌≡◌}
use mathlib.Core.Logic.{◌↔◌}
use mathlib.Core.Bool.{Bool, true, false}
use native.Mathlib.Omega.{arith}
use aws_nitro_enclaves_cose.Prelude.Tests.{◌==◌, ltb, if◌then◌else◌}

-- `negsuc n` is -(n + 1).
pub data ℤ : Type 0 where
  pos : ℕ → ℤ
  negsuc : ℕ → ℤ

abbrev pub eqb : ℤ → ℤ → Bool
eqb (pos a) (pos b) = a == b
eqb (pos a) (negsuc b) = false
eqb (negsuc a) (pos b) = false
eqb (negsuc a) (negsuc b) = a == b

pub eqb_iff : (a b : ℤ) → (eqb a b ≡ true) ↔ (a ≡ b)
eqb_iff a b = ground arith

-- The eight low bits of the two's complement of an integer.
abbrev pub low_byte : ℤ → ℕ
low_byte (pos n) = n % 256
low_byte (negsuc n) = 255 - n % 256

-- The integer that eight bits stand for.
abbrev pub of_byte : ℕ → ℤ
of_byte b = if ltb b 128 then pos b else negsuc (255 - b)

-- `z as i8`
unfoldable pub as_i8 : ℤ → ℤ
as_i8 z = of_byte (low_byte z)

-- An `i8` is kept.
pub as_i8_small : (n : ℕ) → n < 128 → (as_i8 (pos n) ≡ pos n) × (as_i8 (negsuc n) ≡ negsuc n)
unfolding as_i8
as_i8_small n h = ground arith
