-- ===== src/Crypto/Signature/Panics.antt =====
-- How `split_at` cuts a raw signature, and that it panics on one that is too short.
use aws_nitro_enclaves_cose.Prelude.{
  ℕ, ◌<◌, Bytes, ◌≡◌, ◌↔◌, ◌⊎◌, inl, inr, arith, length, take, drop,
}
use aws_nitro_enclaves_cose.Outcome.{Outcome, ok, panic, ◌>>=◌}
use aws_nitro_enclaves_cose.Outcome.Ensures.{Total, Ensures-not_panic}
use aws_nitro_enclaves_cose.Crypto.Signature.{split_at}
use aws_nitro_enclaves_cose.Crypto.Signature.Layout.{split_at_panic}

pub split_at_long :
    {E : Type 0} (n : ℕ) (b : Bytes)
    → (length b < n) ⊎ (split_at {E = E} n b ≡ ok (take n b, drop n b))
unfolding split_at
split_at_long n b = ground arith

module _ {E B : Type 0} where
  -- A call that is cut off by a panic under the condition `P`, and else ends without one.
  pub panic_iff_of :
      {P : Type 0} {r : Outcome E B} → P ⊎ Total r → (P → r ≡ panic) → (r ≡ panic) ↔ P
  panic_iff_of cases cut =
      (λ e. elim cases [ inl p ↦ p | inr total ↦ absurd (Ensures-not_panic total e) ], cut)

  -- Where the rest does not panic, the cut is the only place.
  pub split_at-Total :
      (n : ℕ) (b : Bytes) (next : Bytes × Bytes → Outcome E B)
      → ((p q : Bytes) → Total (next (p, q)))
      → (length b < n) ⊎ Total (split_at n b >>= next)
  split_at-Total n b next total = elim (split_at_long {E = E} n b) [
    | inl short ↦ inl short
    | inr cut ↦ inr (rw cut (total (take n b) (drop n b)))
  ]

  pub split_at_short :
      (n : ℕ) (b : Bytes) (next : Bytes × Bytes → Outcome E B)
      → length b < n
      → (split_at n b >>= next) ≡ panic
  split_at_short n b next short = rw (split_at_panic n b short)
