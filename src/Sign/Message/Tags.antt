-- ===== src/Sign/Message/Tags.antt =====
-- Which tags `from_bytes` and `from_bytes_tagged` of src/sign.rs let through.
use aws_nitro_enclaves_cose.Prelude.{ℕ, Bytes, ◌≡◌, ◌≢◌, ◌↔◌, refl, Option, some, none, arith}
use aws_nitro_enclaves_cose.Outcome.{Outcome, ok, err, ◌>>◌, map_err, map_err-eq-ok, >>=-eq-ok}
use aws_nitro_enclaves_cose.OrderedMap.Order.{IsSorted}
use aws_nitro_enclaves_cose.Error.{CoseError, serialization_error, tag_error}
use aws_nitro_enclaves_cose.Serde.{Cbor, Item, tagged, from_slice_tagged}
use aws_nitro_enclaves_cose.Serde.Laws.{CborLaws}
use aws_nitro_enclaves_cose.HeaderMap
use aws_nitro_enclaves_cose.HeaderMap.{HeaderMap}
use aws_nitro_enclaves_cose.Sign.Message.{
  CoseSign1, serialize, deserialize, from_bytes, from_bytes_tagged, accept_18,
  accept_untagged_or_18,
}
use aws_nitro_enclaves_cose.Sign.Message.RoundTrip.{
  deserialize-serialize_message, from_slice_tagged-tagged,
}

module _ {X V : Type 0} (c : Cbor X V) where
  -- The outermost tag of what the bytes hold.
  abbrev pub HasTag : Bytes → Option ℕ → Type 0
  HasTag b t = (i : Item V) × (c.from_slice b ≡ ok i) × ((c.untag i).0 ≡ t)

  from_slice_tagged-HasTag :
      (b : Bytes) (t : Option ℕ) (m : CoseSign1 V)
      → from_slice_tagged c (deserialize c) b ≡ ok (t, m)
      → HasTag b t
  unfolding from_slice_tagged
  from_slice_tagged-HasTag b t m h =
      let (i, r, p) = >>=-eq-ok (c.from_slice b) _ h in (i, r, ground arith)

  HasTag-unique : (b : Bytes) (t u : Option ℕ) → HasTag b t → HasTag b u → t ≡ u
  HasTag-unique b t u (i, r, p) (j, q, s) = cc

  accept_18-eq-ok :
      {A : Type 0} (t : Option ℕ) (rest : Outcome (CoseError X) A) {a : A}
      → (accept_18 c t >> rest) ≡ ok a
      → (t ≡ some 18) × ((accept_untagged_or_18 c t >> rest) ≡ ok a)
  accept_18-eq-ok none rest h = cc
  accept_18-eq-ok (some t) rest h = ground arith

  from_bytes-of_tagged :
      (b : Bytes) (m : CoseSign1 V)
      → from_bytes_tagged c b ≡ ok m
      → (from_bytes c b ≡ ok m) × HasTag b (some 18)
  unfolding from_bytes_tagged from_bytes
  from_bytes-of_tagged b m h =
      let ((t, v), e, g) =
        >>=-eq-ok (map_err serialization_error (from_slice_tagged c (deserialize c) b)) _ h in
      let read = map_err-eq-ok _ _ e in
      let (is_18, rest) = accept_18-eq-ok t _ g in
      (rw read rest, rw is_18 at (from_slice_tagged-HasTag b t v read))

  from_bytes_tagged_of :
      (b : Bytes) (m : CoseSign1 V)
      → from_bytes c b ≡ ok m
      → HasTag b (some 18)
      → from_bytes_tagged c b ≡ ok m
  unfolding from_bytes_tagged from_bytes
  from_bytes_tagged_of b m h tag =
      let ((t, v), e, g) =
        >>=-eq-ok (map_err serialization_error (from_slice_tagged c (deserialize c) b)) _ h in
      let read = map_err-eq-ok _ _ e in
      let is_18 = HasTag-unique b t (some 18) (from_slice_tagged-HasTag b t v read) tag in
      rw (read, is_18) (rw is_18 at g)

  -- `from_bytes_tagged` gives a message exactly when `from_bytes` gives it and the outermost tag is
  -- 18.
  pub from_bytes_tagged_iff :
      (b : Bytes) (m : CoseSign1 V)
      → (from_bytes_tagged c b ≡ ok m) ↔ ((from_bytes c b ≡ ok m) × HasTag b (some 18))
  from_bytes_tagged_iff b m = (from_bytes-of_tagged b m, λ h. from_bytes_tagged_of b m h.0 h.1)

  -- Bytes that hold a message under an outermost tag other than 18 are refused by both functions, with
  -- the error that names the tag.
  pub from_bytes_wrong_tag :
      (b : Bytes) (t : ℕ) (m : CoseSign1 V)
      → t ≢ 18
      → from_slice_tagged c (deserialize c) b ≡ ok (some t, m)
      → (from_bytes c b ≡ err (tag_error (some t)))
        × (from_bytes_tagged c b ≡ err (tag_error (some t)))
  unfolding from_bytes_tagged from_bytes
  from_bytes_wrong_tag b t m n h = rw h (ground arith)

module _ {X V : Type 0} (c : Cbor X V) (L : CborLaws c) where
  -- Only the outermost tag is looked at: a message written under tag 18 and, within that, any further
  -- tag is accepted by both functions. Its unprotected map is well formed and its protected bytes hold
  -- a header map.
  pub from_bytes_nested_tags :
      (m : CoseSign1 V) (p : HeaderMap V) (t : ℕ) (b : Bytes)
      → IsSorted c.cmp m.unprotected
      → HeaderMap.from_bytes c m.protected ≡ ok p
      → c.to_vec (tagged 18 (tagged t (serialize m))) ≡ ok b
      → (from_bytes c b ≡ ok m) × (from_bytes_tagged c b ≡ ok m)
  unfolding from_bytes from_bytes_tagged deserialize
  from_bytes_nested_tags m p t b s d h =
      rw
        (
          from_slice_tagged-tagged c L 18 (tagged t (serialize m)) m b
              (deserialize-serialize_message c L m s) h,
          d,
        )
        (refl, refl)
