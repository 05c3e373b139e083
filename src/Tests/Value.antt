-- ===== src/Tests/Value.antt =====
-- Values of the test format: an integer or a byte string, in an order with the laws of `Ord`.
use Prim.Native.Nat.{compare}
use Prim.Native.Nat.Ordering.{lt, eq, gt}
use aws_nitro_enclaves_cose.Prelude.{ℤ, pos, negsuc, Bytes, [], ◌∷◌, ◌≡◌, refl, Ordering, arith}
use aws_nitro_enclaves_cose.OrderedMap.Order.{IsLawful}
use aws_nitro_enclaves_cose.Serde.{View, integer, byte_string}

pub data Value : Type 0 where
  int : ℤ → Value
  blob : Bytes → Value

abbrev pub view : Value → View
view (int z) = integer z
view (blob b) = byte_string b

abbrev pub cmp_bytes : Bytes → Bytes → Ordering
cmp_bytes [] [] = eq
cmp_bytes [] (y ∷ ys) = lt
cmp_bytes (x ∷ xs) [] = gt
cmp_bytes (x ∷ xs) (y ∷ ys) =
    let later = cmp_bytes xs ys in elim (compare x y) [ lt ↦ lt | eq ↦ later | gt ↦ gt ]

-- Integers before byte strings, and the positive ones first.
abbrev pub cmp : Value → Value → Ordering
cmp (int (pos a)) (int (pos b)) = compare a b
cmp (int (pos a)) (int (negsuc b)) = lt
cmp (int (negsuc a)) (int (pos b)) = gt
cmp (int (negsuc a)) (int (negsuc b)) = compare a b
cmp (int a) (blob b) = lt
cmp (blob a) (int b) = gt
cmp (blob a) (blob b) = cmp_bytes a b

cmp_bytes_refl : (a : Bytes) → cmp_bytes a a ≡ eq
cmp_bytes_refl [] = refl
cmp_bytes_refl (x ∷ xs) = ground (arith, cmp_bytes_refl xs)

pub eq_of_cmp_bytes : (a b : Bytes) → cmp_bytes a b ≡ eq → a ≡ b
eq_of_cmp_bytes [] [] h = refl
eq_of_cmp_bytes [] (y ∷ ys) h = cc
eq_of_cmp_bytes (x ∷ xs) [] h = cc
eq_of_cmp_bytes (x ∷ xs) (y ∷ ys) h = ground (arith, eq_of_cmp_bytes xs ys)

lt_of_gt_bytes : (a b : Bytes) → cmp_bytes a b ≡ gt → cmp_bytes b a ≡ lt
lt_of_gt_bytes [] [] h = cc
lt_of_gt_bytes [] (y ∷ ys) h = cc
lt_of_gt_bytes (x ∷ xs) [] h = refl
lt_of_gt_bytes (x ∷ xs) (y ∷ ys) h = ground (arith, lt_of_gt_bytes xs ys)

gt_of_lt_bytes : (a b : Bytes) → cmp_bytes a b ≡ lt → cmp_bytes b a ≡ gt
gt_of_lt_bytes [] [] h = cc
gt_of_lt_bytes [] (y ∷ ys) h = refl
gt_of_lt_bytes (x ∷ xs) [] h = cc
gt_of_lt_bytes (x ∷ xs) (y ∷ ys) h = ground (arith, gt_of_lt_bytes xs ys)

lt_trans_bytes : (a b c : Bytes) → cmp_bytes a b ≡ lt → cmp_bytes b c ≡ lt → cmp_bytes a c ≡ lt
lt_trans_bytes [] [] c h k = cc
lt_trans_bytes [] (y ∷ ys) [] h k = cc
lt_trans_bytes [] (y ∷ ys) (z ∷ zs) h k = refl
lt_trans_bytes (x ∷ xs) [] c h k = cc
lt_trans_bytes (x ∷ xs) (y ∷ ys) [] h k = cc
lt_trans_bytes (x ∷ xs) (y ∷ ys) (z ∷ zs) h k = ground (arith, lt_trans_bytes xs ys zs)

cmp_refl : (a : Value) → cmp a a ≡ eq
cmp_refl (int a) = ground arith
cmp_refl (blob a) = cmp_bytes_refl a

eq_of_cmp : (a b : Value) → cmp a b ≡ eq → a ≡ b
eq_of_cmp (int a) (int b) h = ground arith
eq_of_cmp (int a) (blob b) h = ground arith
eq_of_cmp (blob a) (int b) h = ground arith
eq_of_cmp (blob a) (blob b) h = ground (arith, eq_of_cmp_bytes a b)

lt_of_gt : (a b : Value) → cmp a b ≡ gt → cmp b a ≡ lt
lt_of_gt (int a) (int b) h = ground arith
lt_of_gt (int a) (blob b) h = ground arith
lt_of_gt (blob a) (int b) h = ground arith
lt_of_gt (blob a) (blob b) h = lt_of_gt_bytes a b h

gt_of_lt : (a b : Value) → cmp a b ≡ lt → cmp b a ≡ gt
gt_of_lt (int a) (int b) h = ground arith
gt_of_lt (int a) (blob b) h = ground arith
gt_of_lt (blob a) (int b) h = ground arith
gt_of_lt (blob a) (blob b) h = gt_of_lt_bytes a b h

lt_trans : (a b c : Value) → cmp a b ≡ lt → cmp b c ≡ lt → cmp a c ≡ lt
lt_trans (int a) (int b) (int c) h k = ground arith
lt_trans (int a) (int b) (blob c) h k = ground arith
lt_trans (int a) (blob b) (int c) h k = ground arith
lt_trans (int a) (blob b) (blob c) h k = ground arith
lt_trans (blob a) (int b) c h k = ground arith
lt_trans (blob a) (blob b) (int c) h k = ground arith
lt_trans (blob a) (blob b) (blob c) h k = lt_trans_bytes a b c h k

pub cmp-IsLawful : IsLawful cmp
cmp-IsLawful = record {
  cmp_refl = cmp_refl;
  eq_of_cmp = eq_of_cmp;
  lt_of_gt = lt_of_gt;
  gt_of_lt = gt_of_lt;
  lt_trans = lt_trans;
}
