-- ===== src/Tests/Cbor/Heads.antt =====
-- The initial bytes of CBOR items.
use aws_nitro_enclaves_cose.Prelude.{
  ℕ, ◌+◌, ◌*◌, ◌/◌, ◌%◌, Bytes, [], ◌∷◌, ◌++◌, Option, some, none, ◌≡◌, ◌<◌, refl, arith, ltb,
  ltb→lt, lt→ltb, true, ◌==◌, Bool-cases, inl, inr, length, if◌then◌else◌,
}

pub data Head : Type 0 where
  unsigned : ℕ → Head
  negative : ℕ → Head
  byte_length : ℕ → Head
  text_length : ℕ → Head
  array_length : ℕ → Head
  map_length : ℕ → Head
  tag : ℕ → Head
  simple_length : ℕ → Head

abbrev major : Head → ℕ
major (unsigned n) = 0
major (negative n) = 1
major (byte_length n) = 2
major (text_length n) = 3
major (array_length n) = 4
major (map_length n) = 5
major (tag n) = 6
major (simple_length n) = 7

abbrev argument : Head → ℕ
argument (unsigned n) = n
argument (negative n) = n
argument (byte_length n) = n
argument (text_length n) = n
argument (array_length n) = n
argument (map_length n) = n
argument (tag n) = n
argument (simple_length n) = n

abbrev make : ℕ → ℕ → Head
make m n =
    if m == 0
    then unsigned n
    else if m == 1
    then negative n
    else if m == 2
    then byte_length n
    else if m == 3
    then text_length n
    else if m == 4
    then array_length n
    else if m == 5
    then map_length n
    else if m == 6
    then tag n
    else simple_length n

-- An argument below 24 stands in the initial byte, another in the byte that follows.
unfoldable pub write_head : Head → Bytes
write_head h =
    if ltb (argument h) 24
    then (32 * major h + argument h) ∷ []
    else (32 * major h + 24) ∷ argument h ∷ []

abbrev read_one : ℕ → Bytes → Option (Head × Bytes)
read_one m [] = none
read_one m (n ∷ rest) = some (make m n, rest)

abbrev read_two : ℕ → Bytes → Option (Head × Bytes)
read_two m [] = none
read_two m (n ∷ []) = none
read_two m (n ∷ k ∷ rest) = some (make m (256 * n + k), rest)

-- After the initial byte 24 the argument has one byte, and after 25 two.
abbrev read_long : ℕ → ℕ → Bytes → Option (Head × Bytes)
read_long m a rest = if a == 24 then read_one m rest else if a == 25 then read_two m rest else none

unfoldable pub read_head : Bytes → Option (Head × Bytes)
read_head [] = none
read_head (b ∷ rest) =
    if ltb (b % 32) 24
    then some (make (b / 32) (b % 32), rest)
    else read_long (b / 32) (b % 32) rest

make-major : (h : Head) → make (major h) (argument h) ≡ h
make-major (unsigned n) = refl
make-major _ = refl

read_short :
    (m n : ℕ) (rest : Bytes) → n < 24 → read_head ((32 * m + n) ∷ rest) ≡ some (make m n, rest)
unfolding read_head
read_short m n rest h =
    let low : (32 * m + n) % 32 ≡ n = omega arith in
    let high : (32 * m + n) / 32 ≡ m = omega arith in
    let small : ltb n 24 ≡ true = lt→ltb n 24 h in rw (low, high, small)

read_longer :
    (m n : ℕ) (rest : Bytes) → read_head ((32 * m + 24) ∷ n ∷ rest) ≡ some (make m n, rest)
unfolding read_head
read_longer m n rest =
    let low : (32 * m + 24) % 32 ≡ 24 = omega arith in
    let high : (32 * m + 24) / 32 ≡ m = omega arith in rw (low, high)

pub read_head-write_head :
    (h : Head) (rest : Bytes) → read_head (write_head h ++ rest) ≡ some (h, rest)
unfolding write_head
read_head-write_head h rest = elim (Bool-cases (ltb (argument h) 24)) [
  | inl short ↦ rw (short, read_short (major h) (argument h) rest (ltb→lt _ _ short), make-major h)
  | inr long ↦ rw (long, read_longer (major h) (argument h) rest, make-major h)
]

pub length-write_head_pos : (h : Head) → 0 < length (write_head h)
unfolding write_head
length-write_head_pos h = ground arith
