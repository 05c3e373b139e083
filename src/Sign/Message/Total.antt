-- ===== src/Sign/Message/Total.antt =====
-- What the readers of src/sign.rs may end with: a message, or one of two errors.
use aws_nitro_enclaves_cose.Prelude.{
  ℕ, Bytes, String, Option, some, none, Bool-cases, inl, inr, ◌==◌, arith,
}
use aws_nitro_enclaves_cose.Outcome.{Outcome}
use aws_nitro_enclaves_cose.Outcome.Ensures.{
  Ensures, Total, returns, throws, Ensures-bind, Ensures-weaken,
}
use aws_nitro_enclaves_cose.Error.Reading.{IsReadError}
use aws_nitro_enclaves_cose.Serde.{
  Cbor, Item, Items, bytes, str, entries, seq, tagged, other, nil, cons,
}
use aws_nitro_enclaves_cose.Serde.Laws.{CborLaws, IsTotal}
use aws_nitro_enclaves_cose.HeaderMap
use aws_nitro_enclaves_cose.HeaderMap.Total.{deserialize-Total, read_message-Ensures}
use aws_nitro_enclaves_cose.Sign.Message.{
  element, visit_seq, deserialize, accept_untagged_or_18, from_bytes,
}
use aws_nitro_enclaves_cose.Sign.Message.Encoding.{IsMessage, from_bytes_iff}

module _ {X V : Type 0} (c : Cbor X V) (T : IsTotal c) where
  element-Total :
      {A : Type 0} (read : Item V → Outcome X A) (name : String) (items : Items V)
      → ((i : Item V) → Total (read i))
      → Total (element c read name items)
  unfolding element
  element-Total read name nil total = throws tt
  element-Total read name (cons i rest) total =
      Ensures-bind (total i) (λ e q. q) λ v r p. returns tt

  visit_seq-Total : (items : Items V) → Total (visit_seq c items)
  unfolding visit_seq
  visit_seq-Total items =
      let field =
        λ (name : String) (is : Items V). element-Total c.byte_buf name is T.byte_buf-Total in
      Ensures-bind (field "protected" items) (λ e q. q)
        λ p r₀ _.
          Ensures-bind
            (element-Total (HeaderMap.deserialize c) "unprotected" p.1 (deserialize-Total c T))
            (λ e q. q)
            λ u r₁ _.
              Ensures-bind (field "payload" u.1) (λ e q. q)
                λ y r₂ _. Ensures-bind (field "signature" y.1) (λ e q. q) λ s r₃ _. returns tt

  deserialize-Total_message : (i : Item V) → Total (deserialize c i)
  unfolding deserialize
  deserialize-Total_message (seq items) =
      Ensures-bind (visit_seq-Total items) (λ e q. q)
        λ r p _. Ensures-bind (T.end_seq-Total r.1) (λ e q. q) λ u s _. returns tt
  deserialize-Total_message (tagged t i) = deserialize-Total_message i
  deserialize-Total_message (bytes b) = throws tt
  deserialize-Total_message (str b) = throws tt
  deserialize-Total_message (entries es) = throws tt
  deserialize-Total_message (other v) = throws tt

  accept_untagged_or_18-Ensures :
      (t : Option ℕ) → Ensures (λ _. Unit {0}) (IsReadError {X = X} 18) (accept_untagged_or_18 c t)
  accept_untagged_or_18-Ensures none = returns tt
  accept_untagged_or_18-Ensures (some t) = elim (Bool-cases (t == 18)) [
    | inl same ↦ rw same (returns tt)
    | inr differs ↦ rw differs (throws (λ e. ground arith))
  ]

  from_bytes-Total_message :
      (b : Bytes) → Ensures (λ _. Unit {0}) (IsReadError {X = X} 18) (from_bytes c b)
  unfolding from_bytes
  from_bytes-Total_message =
      read_message-Ensures c T (λ m. m.protected) deserialize-Total_message
        accept_untagged_or_18-Ensures (λ x. tt)

  -- Any bytes at all make `from_bytes` end without a panic: in the message that they are, or in an
  -- error of the format or of a tag that is not 18. Reading in the format does not panic, and asks
  -- for a sequence to be read to its end.
  pub from_bytes-Ensures :
      CborLaws c
      → (b : Bytes) → Ensures (λ m. IsMessage c b m) (IsReadError {X = X} 18) (from_bytes c b)
  from_bytes-Ensures L b =
      Ensures-weaken (from_bytes-Total_message b) (λ m r p. (from_bytes_iff c L b m).0 r) (λ e q. q)
