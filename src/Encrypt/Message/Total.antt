-- ===== src/Encrypt/Message/Total.antt =====
-- What `from_bytes` of src/encrypt.rs may end with: a message, or one of two errors.
use aws_nitro_enclaves_cose.Prelude.{
  ℕ, Bytes, Option, some, none, Bool-cases, inl, inr, ◌==◌, arith,
}
use aws_nitro_enclaves_cose.Outcome.Ensures.{
  Ensures, Total, returns, throws, Ensures-bind, Ensures-weaken,
}
use aws_nitro_enclaves_cose.Error.Reading.{IsReadError}
use aws_nitro_enclaves_cose.Serde.{Cbor, Item, Items, nil, cons}
use aws_nitro_enclaves_cose.Serde.Laws.{IsTotal}
use aws_nitro_enclaves_cose.HeaderMap.Total.{deserialize-Total, read_message-Ensures}
use aws_nitro_enclaves_cose.Encrypt.Message.{
  field_names, of_fields, deserialize, accept_untagged_or_16, from_bytes,
}
use aws_nitro_enclaves_cose.Encrypt.Message.Encoding.{IsMessage, from_bytes_encrypt0_iff}

module _ {X V : Type 0} (c : Cbor X V) (T : IsTotal c) where
  of_fields-Total : (i : Item V) (fields : Items V) → Total (of_fields c i fields)
  unfolding of_fields
  of_fields-Total i (cons p (cons u (cons t nil))) =
      Ensures-bind (T.byte_buf-Total p) (λ e q. q)
        λ p' r₀ _.
          Ensures-bind (deserialize-Total c T u) (λ e q. q)
            λ u' r₁ _. Ensures-bind (T.byte_buf-Total t) (λ e q. q) λ t' r₂ _. returns tt
  of_fields-Total i nil = throws tt
  of_fields-Total i (cons p nil) = throws tt
  of_fields-Total i (cons p (cons u nil)) = throws tt
  of_fields-Total i (cons p (cons u (cons t (cons x is)))) = throws tt

  deserialize-Total_encrypt0 : (i : Item V) → Total (deserialize c i)
  unfolding deserialize
  deserialize-Total_encrypt0 i =
      Ensures-bind (T.struct_fields-Total field_names i) (λ e q. q)
        λ fields r _. of_fields-Total i fields

  accept_untagged_or_16-Ensures :
      (t : Option ℕ) → Ensures (λ _. Unit {0}) (IsReadError {X = X} 16) (accept_untagged_or_16 c t)
  accept_untagged_or_16-Ensures none = returns tt
  accept_untagged_or_16-Ensures (some t) = elim (Bool-cases (t == 16)) [
    | inl same ↦ rw same (returns tt)
    | inr differs ↦ rw differs (throws (λ e. ground arith))
  ]

  from_bytes-Total_encrypt0 :
      (b : Bytes) → Ensures (λ _. Unit {0}) (IsReadError {X = X} 16) (from_bytes c b)
  unfolding from_bytes
  from_bytes-Total_encrypt0 =
      read_message-Ensures c T (λ m. m.protected) deserialize-Total_encrypt0
        accept_untagged_or_16-Ensures (λ x. tt)

  -- Any bytes at all make `from_bytes` end without a panic: in the encrypted message that they are,
  -- or in an error of the format or of a tag that is not 16. Reading in the format does not panic.
  pub from_bytes_encrypt0-Ensures :
      (b : Bytes) → Ensures (λ m. IsMessage c b m) (IsReadError {X = X} 16) (from_bytes c b)
  from_bytes_encrypt0-Ensures b =
      Ensures-weaken (from_bytes-Total_encrypt0 b) (λ m r p. (from_bytes_encrypt0_iff c b m).0 r)
        (λ e q. q)
