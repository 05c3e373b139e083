-- ===== src/HeaderMap/Total.antt =====
-- The encodings of src/header_map.rs do not panic.
use aws_nitro_enclaves_cose.Prelude.{ℕ, Option, Bytes, Bool-cases, inl, inr}
use aws_nitro_enclaves_cose.Outcome.{Outcome, ok, map_err, ◌>>=◌, ◌>>◌}
use aws_nitro_enclaves_cose.Outcome.Ensures.{Ensures, Total, returns, Ensures-bind, Ensures-map_err}
use aws_nitro_enclaves_cose.Error.{CoseError, serialization_error}
use aws_nitro_enclaves_cose.Serde.{Cbor, Item, from_slice_tagged}
use aws_nitro_enclaves_cose.Serde.Laws.{IsTotal}
use aws_nitro_enclaves_cose.Serde.Total.{from_slice_tagged-Total}
use aws_nitro_enclaves_cose.HeaderMap.{
  HeaderMap, is_empty, serialize, deserialize, from_bytes, map_to_empty_or_serialized,
}

module _ {X V : Type 0} (c : Cbor X V) (T : IsTotal c) where
  pub deserialize-Total : (i : Item V) → Total (deserialize c i)
  unfolding deserialize
  deserialize-Total i = T.unique_map-Total i

  pub from_bytes-Total : (b : Bytes) → Total (from_bytes c b)
  unfolding from_bytes
  from_bytes-Total b = Ensures-bind (T.from_slice-Total b) (λ e q. q) λ i r p. deserialize-Total i

  pub map_to_empty_or_serialized-Total : (m : HeaderMap V) → Total (map_to_empty_or_serialized c m)
  unfolding map_to_empty_or_serialized
  map_to_empty_or_serialized-Total m = elim (Bool-cases (is_empty m)) [
    | inl empty ↦ rw empty (returns tt)
    | inr full ↦ rw full (T.to_vec-Total (serialize m))
  ]

  -- The steps that the readers of both message types share: the bytes, the tag, the protected map.
  pub read_message-Ensures :
      {A : Type 0} {Q : CoseError X → Type 0} {read : Item V → Outcome X A}
      {accept : Option ℕ → Outcome (CoseError X) (Unit {0})} (protected : A → Bytes)
      → ((i : Item V) → Total (read i))
      → ((t : Option ℕ) → Ensures (λ _. Unit {0}) Q (accept t))
      → ((x : X) → Q (serialization_error x))
      → (b : Bytes)
      → Ensures
          (λ _. Unit {0})
          Q
          (map_err serialization_error (from_slice_tagged c read b) >>= λ p.
            accept p.0
            >> (map_err serialization_error (from_bytes c (protected p.1)) >>= λ m. ok p.1))
  read_message-Ensures {Q} {read} protected total accepted wrapped b =
      Ensures-bind
        (Ensures-map_err {Q' = Q} serialization_error (from_slice_tagged-Total c T read b total)
          λ x q. wrapped x)
        (λ e q. q)
        λ p r _.
          Ensures-bind (accepted p.0) (λ e q. q)
            λ u s _.
              Ensures-bind
                (Ensures-map_err {Q' = Q} serialization_error (from_bytes-Total (protected p.1))
                  λ x q. wrapped x)
                (λ e q. q) λ m t _. returns tt
