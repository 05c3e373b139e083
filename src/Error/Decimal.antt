-- ===== src/Error/Decimal.antt =====
-- `{}` of an unsigned integer, as the Display of src/error.rs prints a tag.
use Prim.Native.Nat.add
use Prim.Native.String.{◌++◌ as ◌<>◌}
use aws_nitro_enclaves_cose.Prelude.{
  ℕ, zero, suc, ◌+◌, ◌/◌, ◌%◌, ◌<◌, String, ◌≡◌, ltb, ◌==◌, if◌then◌else◌, arith, Bool-cases, inl,
  inr,
}

digit : ℕ → String
digit d =
    if d == 0
    then "0"
    else if d == 1
    then "1"
    else if d == 2
    then "2"
    else if d == 3
    then "3"
    else if d == 4
    then "4"
    else if d == 5
    then "5"
    else if d == 6
    then "6"
    else if d == 7
    then "7"
    else if d == 8
    then "8"
    else "9"

-- One unit of fuel for each digit.
digits : ℕ → ℕ → String
unfolding digit
digits zero n = ""
digits (suc fuel) n =
    let more = digits fuel (n / 10) <> digit (n % 10) in if ltb n 10 then digit n else more

unfoldable pub decimal : ℕ → String
unfolding digits
decimal n = digits (n + 1) n

-- The fuel of `decimal` is enough: more of it prints the same.
digits_more : (fuel n : ℕ) → n < fuel → digits (suc fuel) n ≡ digits fuel n
unfolding digits
digits_more zero n h = elim h [ ]
digits_more (suc fuel) n h = elim (Bool-cases (ltb n 10)) [
  | inl small ↦ rw small
  | inr large ↦ rw (large, digits_more fuel (n / 10) (ground arith))
]

digits-add : (extra n : ℕ) → digits (extra + (n + 1)) n ≡ decimal n
unfolding decimal
digits-add zero n = rw (add.zero (n + 1))
digits-add (suc extra) n =
    rw (add.suc extra (n + 1), digits_more (extra + (n + 1)) n (omega arith)) (digits-add extra n)
