-- ===== src/Crypto/Signature/Layout.antt =====
-- What `merge_ec_signature` lays out, and that a verifier reads the same two numbers back.
use aws_nitro_enclaves_cose.Prelude.{
  ℕ, zero, suc, ◌+◌, ◌-◌, ◌*◌, ◌≤◌, ◌<◌, Bytes, [], ◌∷◌, ◌++◌, ◌≡◌, ◌⊎◌, ◌↔◌, ◌∙◌, refl, ap, sym,
  leb, length, replicate, arith, append_assoc, append-nil, length-append, length-replicate,
  take-append, drop-append, take-append_add, drop-append_add, take-replicate, drop-replicate, true,
}
use aws_nitro_enclaves_cose.Outcome.{ok, panic, ok-injective}
use aws_nitro_enclaves_cose.Crypto.Signature.{split_at, copy_from_slice, merge_ec_signature}

-- I2OSP of RFC 8017: a big-endian number in `n` bytes, with zeros in front.
abbrev pub pad : ℕ → Bytes → Bytes
pad n b = replicate (n - length b) zero ++ b

-- The number that big-endian bytes stand for.
unfoldable pub value_from : ℕ → Bytes → ℕ
value_from acc [] = acc
value_from acc (b ∷ bs) = value_from (acc * 256 + b) bs

unfoldable pub big_endian : Bytes → ℕ
unfolding value_from
big_endian b = value_from 0 b

big_endian-zeros : (k : ℕ) (b : Bytes) → value_from 0 (replicate k 0 ++ b) ≡ value_from 0 b
unfolding value_from
big_endian-zeros zero b = refl
big_endian-zeros (suc k) b = big_endian-zeros k b

pub big_endian-zeros_append :
    (k : ℕ) (b : Bytes) → big_endian (replicate k zero ++ b) ≡ big_endian b
unfolding big_endian
big_endian-zeros_append k b = big_endian-zeros k b

-- Padding does not change the number.
pub big_endian-pad : (n : ℕ) (b : Bytes) → big_endian (pad n b) ≡ big_endian b
unfolding big_endian
big_endian-pad n b = big_endian-zeros (n - length b) b

pub length-pad : (n : ℕ) (b : Bytes) → length b ≤ n → length (pad n b) ≡ n
length-pad n b h =
    omega
      (arith, length-append (replicate (n - length b) zero) b, length-replicate (n - length b) zero)

pub leb-true : (a b : ℕ) → a ≤ b → leb a b ≡ true
leb-true a b h = ground arith

module _ {E : Type 0} where
  copy_first :
      (n : ℕ) (r : Bytes)
      → length r ≤ n
      → copy_from_slice {E = E} (replicate (n * 2) zero) (n - length r) r
        ≡ ok (pad n r ++ replicate n zero)
  unfolding copy_from_slice
  copy_first n r h =
      rw
        (
          leb-true (n - length r + length r) (length (replicate (n * 2) zero))
              (omega (arith, length-replicate (n * 2) zero)),
          take-replicate (n - length r) (n * 2) zero (omega arith),
          drop-replicate (n - length r + length r) (n * 2) n zero (omega arith),
        )
        (ap ok (sym (append_assoc (replicate (n - length r) zero) r (replicate n zero))))

  copy_behind :
      (p s : Bytes)
      → length s ≤ length p
      → copy_from_slice {E = E} (p ++ replicate (length p) zero) (length p - length s + length p) s
        ≡ ok (p ++ pad (length p) s)
  unfolding copy_from_slice
  copy_behind p s h =
      let n : ℕ = length p in
      let whole : n - length s + n + length s ≡ n + n = omega arith in
      rw
        (
          whole,
          leb-true (n + n) (length (p ++ replicate n zero))
              (omega (arith, length-append p (replicate n zero), length-replicate n zero)),
          take-append_add p (replicate n zero) (n - length s),
          drop-append_add p (replicate n zero) n,
          take-replicate (n - length s) n zero (omega arith),
          drop-replicate n n 0 zero (omega arith),
          append-nil s,
        )
        (ap ok (append_assoc p (replicate (n - length s) zero) s))

  copy_second :
      (n : ℕ) (p s : Bytes)
      → length p ≡ n
      → length s ≤ n
      → copy_from_slice {E = E} (p ++ replicate n zero) (n - length s + n) s ≡ ok (p ++ pad n s)
  copy_second n p s e h = rw (← e) (copy_behind p s (omega arith))

  -- Two numbers that fit come out padded, one behind the other.
  pub merge_ec_signature_lem :
      (r s : Bytes) (n : ℕ)
      → length r ≤ n
      → length s ≤ n
      → merge_ec_signature {E = E} r s n ≡ ok (pad n r ++ pad n s)
  unfolding merge_ec_signature
  merge_ec_signature_lem r s n hr hs =
      rw (leb-true (length r) n hr, leb-true (length s) n hs, copy_first n r hr)
        (copy_second n (pad n r) s (length-pad n r hr) hs)

  -- A number that does not fit is a panic.
  pub merge_ec_signature_panic :
      (r s : Bytes) (n : ℕ)
      → (n < length r) ⊎ (n < length s)
      → merge_ec_signature {E = E} r s n ≡ panic
  unfolding merge_ec_signature
  merge_ec_signature_panic r s n h = ground arith

  merge_ec_signature_fits :
      (r s : Bytes) (n : ℕ) {b : Bytes}
      → merge_ec_signature {E = E} r s n ≡ ok b
      → (length r ≤ n) × (length s ≤ n)
  unfolding merge_ec_signature
  merge_ec_signature_fits r s n e = ground arith

  -- Two numbers merge exactly when both fit in `n` bytes, and then to the two of them padded to `n`
  -- bytes, one behind the other.
  pub merge_ec_signature_iff :
      (r s : Bytes) (n : ℕ) (b : Bytes)
      → (merge_ec_signature {E = E} r s n ≡ ok b)
        ↔ ((length r ≤ n) × (length s ≤ n) × (b ≡ pad n r ++ pad n s))
  merge_ec_signature_iff r s n b = (
    λ e.
        let (hr, hs) = merge_ec_signature_fits r s n e in
        (hr, hs, ok-injective (sym e ∙ merge_ec_signature_lem r s n hr hs)),
    λ (hr, hs, e). merge_ec_signature_lem r s n hr hs ∙ ap ok (sym e),
  )

  pub split_at-append :
      (n : ℕ) (p q : Bytes) → length p ≡ n → split_at {E = E} n (p ++ q) ≡ ok (p, q)
  unfolding split_at
  split_at-append n p q e = rw (
    ← e,
    leb-true (length p) (length (p ++ q)) (omega (arith, length-append p q)),
    take-append p q,
    drop-append p q,
  )

  pub split_at_panic : (n : ℕ) (b : Bytes) → length b < n → split_at {E = E} n b ≡ panic
  unfolding split_at
  split_at_panic n b h = ground arith
