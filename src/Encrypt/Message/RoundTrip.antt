-- ===== src/Encrypt/Message/RoundTrip.antt =====
-- `as_bytes` against `from_bytes` of src/encrypt.rs.
use aws_nitro_enclaves_cose.Prelude.{
  ℕ, Bytes, Bool, true, false, ◌≡◌, ◌≢◌, Option, some, none, arith,
}
use aws_nitro_enclaves_cose.Outcome.{ok, err, map_err-eq-ok}
use aws_nitro_enclaves_cose.OrderedMap.Order.{IsSorted}
use aws_nitro_enclaves_cose.Error.{tag_error}
use aws_nitro_enclaves_cose.Serde.{Cbor, Item, tagged, from_slice_tagged}
use aws_nitro_enclaves_cose.Serde.Laws.{CborLaws}
use aws_nitro_enclaves_cose.HeaderMap
use aws_nitro_enclaves_cose.HeaderMap.{HeaderMap}
use aws_nitro_enclaves_cose.HeaderMap.RoundTrip.{deserialize-serialize}
use aws_nitro_enclaves_cose.Encrypt.Message.{
  CoseEncrypt0, serialize, field_names, of_fields, deserialize, as_bytes, from_bytes,
}

module _ {X V : Type 0} (c : Cbor X V) (L : CborLaws c) where
  pub deserialize-serialize_message :
      (m : CoseEncrypt0 V) → IsSorted c.cmp m.unprotected → deserialize c (serialize m) ≡ ok m
  unfolding deserialize of_fields serialize
  deserialize-serialize_message m s = rw (
    L.struct_fields-seq field_names _ tt,
    L.byte_buf-bytes m.protected,
    deserialize-serialize c L m.unprotected s,
    L.byte_buf-bytes m.ciphertext,
  )

  from_slice_tagged_of :
      (b : Bytes) (i j : Item V) (t : Option ℕ) (m : CoseEncrypt0 V)
      → c.from_slice b ≡ ok i
      → c.untag i ≡ (t, j)
      → deserialize c j ≡ ok m
      → from_slice_tagged c (deserialize c) b ≡ ok (t, m)
  unfolding from_slice_tagged
  from_slice_tagged_of b i j t m r u d = rw (r, u, d)

  untag-serialize : (m : CoseEncrypt0 V) → c.untag (serialize m) ≡ (none, serialize m)
  unfolding serialize
  untag-serialize m = L.untag-seq _

  -- A message that `as_bytes` wrote, with its tag or without, is read back by `from_bytes`. The
  -- message's unprotected map is well formed and its protected bytes hold a header map.
  pub from_bytes-as_bytes_encrypt0 :
      (m : CoseEncrypt0 V) (p : HeaderMap V) (is_tagged : Bool) (b : Bytes)
      → IsSorted c.cmp m.unprotected
      → HeaderMap.from_bytes c m.protected ≡ ok p
      → as_bytes c m is_tagged ≡ ok b
      → from_bytes c b ≡ ok m
  unfolding from_bytes as_bytes
  from_bytes-as_bytes_encrypt0 m p true b s d h =
      let read = L.from_slice-to_vec (tagged 16 (serialize m)) b (map_err-eq-ok _ _ h) in
      rw (
        from_slice_tagged_of b _ (serialize m) (some 16) m read (L.untag-tagged 16 (serialize m))
            (deserialize-serialize_message m s),
        d,
      )
  from_bytes-as_bytes_encrypt0 m p false b s d h =
      let read = L.from_slice-to_vec (serialize m) b (map_err-eq-ok _ _ h) in
      rw (
        from_slice_tagged_of b _ (serialize m) none m read (untag-serialize m)
            (deserialize-serialize_message m s),
        d,
      )

  -- A message written under another tag than 16 is refused with the error that names the tag. Its
  -- unprotected map is well formed.
  pub from_bytes_wrong_tag_encrypt0 :
      (m : CoseEncrypt0 V) (t : ℕ) (b : Bytes)
      → IsSorted c.cmp m.unprotected
      → t ≢ 16
      → c.to_vec (tagged t (serialize m)) ≡ ok b
      → from_bytes c b ≡ err (tag_error (some t))
  unfolding from_bytes
  from_bytes_wrong_tag_encrypt0 m t b s n h =
      rw
        (from_slice_tagged_of b _ (serialize m) (some t) m
          (L.from_slice-to_vec (tagged t (serialize m)) b h) (L.untag-tagged t (serialize m))
          (deserialize-serialize_message m s))
        (ground arith)
