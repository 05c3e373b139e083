-- ===== src/Serde/Total.antt =====
-- Reading with the crate's own `Deserialize` impls does not panic.
use aws_nitro_enclaves_cose.Prelude.{ℤ, ◌≡◌, refl, ◌⊎◌, inl, inr}
use aws_nitro_enclaves_cose.Serde.{View, integer, byte_string, others}
use aws_nitro_enclaves_cose.Prelude.{Bytes}
use aws_nitro_enclaves_cose.Outcome.{Outcome}
use aws_nitro_enclaves_cose.Outcome.Ensures.{Total, returns, Ensures-bind}
use aws_nitro_enclaves_cose.Serde.{Cbor, Item, from_slice_tagged}
use aws_nitro_enclaves_cose.Serde.Laws.{IsTotal}

module _ {X V : Type 0} (c : Cbor X V) (T : IsTotal c) where
  pub from_slice_tagged-Total :
      {A : Type 0} (deserialize : Item V → Outcome X A) (b : Bytes)
      → ((i : Item V) → Total (deserialize i))
      → Total (from_slice_tagged c deserialize b)
  unfolding from_slice_tagged
  from_slice_tagged-Total deserialize b total =
      Ensures-bind (T.from_slice-Total b) (λ e q. q)
        λ i r p. Ensures-bind (total (c.untag i).1) (λ e q. q) λ v s q. returns tt

-- A view, to split on.
pub View-cases :
    (w : View) → ((z : ℤ) × (w ≡ integer z)) ⊎ (((b : Bytes) × (w ≡ byte_string b)) ⊎ (w ≡ others))
View-cases (integer z) = inl (z, refl)
View-cases (byte_string b) = inr (inl (b, refl))
View-cases others = inr (inr refl)
