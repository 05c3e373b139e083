-- ===== src/Sign/Message/RoundTrip.antt =====
-- `as_bytes` against `from_bytes` and `from_bytes_tagged` of src/sign.rs.
use aws_nitro_enclaves_cose.Prelude.{
  ℕ, Bytes, Bool, true, false, ◌≡◌, Option, some, none, if◌then◌else◌,
}
use aws_nitro_enclaves_cose.Outcome.{ok, err, map_err-eq-ok}
use aws_nitro_enclaves_cose.OrderedMap.Order.{IsSorted}
use aws_nitro_enclaves_cose.Error.{tag_error}
use aws_nitro_enclaves_cose.Serde.{Cbor, Item, tagged, from_slice_tagged}
use aws_nitro_enclaves_cose.Serde.Laws.{CborLaws}
use aws_nitro_enclaves_cose.HeaderMap
use aws_nitro_enclaves_cose.HeaderMap.{HeaderMap}
use aws_nitro_enclaves_cose.HeaderMap.RoundTrip.{deserialize-serialize}
use aws_nitro_enclaves_cose.Sign.Message.{
  CoseSign1, serialize, element, visit_seq, deserialize, as_bytes, from_bytes, from_bytes_tagged,
}

module _ {X V : Type 0} (c : Cbor X V) (L : CborLaws c) where
  -- The visitor reads the four fields that `serialize` wrote.
  pub deserialize-serialize_message :
      (m : CoseSign1 V) → IsSorted c.cmp m.unprotected → deserialize c (serialize m) ≡ ok m
  unfolding deserialize visit_seq element serialize
  deserialize-serialize_message m s = rw (
    L.byte_buf-bytes m.protected,
    deserialize-serialize c L m.unprotected s,
    L.byte_buf-bytes m.payload,
    L.byte_buf-bytes m.signature,
    L.end_seq-nil,
  )

  -- What `from_slice` gives, by the item that it reads.
  from_slice_tagged_of :
      (b : Bytes) (i j : Item V) (t : Option ℕ) (m : CoseSign1 V)
      → c.from_slice b ≡ ok i
      → c.untag i ≡ (t, j)
      → deserialize c j ≡ ok m
      → from_slice_tagged c (deserialize c) b ≡ ok (t, m)
  unfolding from_slice_tagged
  from_slice_tagged_of b i j t m r u d = rw (r, u, d)

  pub from_slice_tagged-to_vec :
      (m : CoseSign1 V) (b : Bytes)
      → IsSorted c.cmp m.unprotected
      → c.to_vec (serialize m) ≡ ok b
      → from_slice_tagged c (deserialize c) b ≡ ok (none, m)
  unfolding serialize
  from_slice_tagged-to_vec m b s h =
      from_slice_tagged_of b (serialize m) (serialize m) none m
        (L.from_slice-to_vec (serialize m) b h) (L.untag-seq _) (deserialize-serialize_message m s)

  pub from_slice_tagged-tagged :
      (t : ℕ) (i : Item V) (m : CoseSign1 V) (b : Bytes)
      → deserialize c i ≡ ok m
      → c.to_vec (tagged t i) ≡ ok b
      → from_slice_tagged c (deserialize c) b ≡ ok (some t, m)
  from_slice_tagged-tagged t i m b d h =
      from_slice_tagged_of b (tagged t i) i (some t) m (L.from_slice-to_vec (tagged t i) b h)
        (L.untag-tagged t i) d

  -- A message that `as_bytes` wrote, with its tag or without, is read back by `from_bytes`. The
  -- message's unprotected map is well formed and its protected bytes hold a header map.
  pub from_bytes-as_bytes :
      (m : CoseSign1 V) (p : HeaderMap V) (is_tagged : Bool) (b : Bytes)
      → IsSorted c.cmp m.unprotected
      → HeaderMap.from_bytes c m.protected ≡ ok p
      → as_bytes c m is_tagged ≡ ok b
      → from_bytes c b ≡ ok m
  unfolding from_bytes as_bytes
  from_bytes-as_bytes m p true b s d h = rw (
    from_slice_tagged-tagged 18 (serialize m) m b (deserialize-serialize_message m s)
        (map_err-eq-ok _ _ h),
    d,
  )
  from_bytes-as_bytes m p false b s d h =
      rw (from_slice_tagged-to_vec m b s (map_err-eq-ok _ _ h), d)

  -- Of what `as_bytes` wrote, `from_bytes_tagged` reads a tagged message back, and refuses an untagged
  -- one for its lack of a tag. The message's unprotected map is well formed and its protected bytes
  -- hold a header map.
  pub from_bytes_tagged-as_bytes :
      (m : CoseSign1 V) (p : HeaderMap V) (is_tagged : Bool) (b : Bytes)
      → IsSorted c.cmp m.unprotected
      → HeaderMap.from_bytes c m.protected ≡ ok p
      → as_bytes c m is_tagged ≡ ok b
      → from_bytes_tagged c b ≡ (if is_tagged then ok m else err (tag_error none))
  unfolding from_bytes_tagged as_bytes
  from_bytes_tagged-as_bytes m p true b s d h = rw (
    from_slice_tagged-tagged 18 (serialize m) m b (deserialize-serialize_message m s)
        (map_err-eq-ok _ _ h),
    d,
  )
  from_bytes_tagged-as_bytes m p false b s d h =
      rw (from_slice_tagged-to_vec m b s (map_err-eq-ok _ _ h))
