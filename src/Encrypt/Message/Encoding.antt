-- ===== src/Encrypt/Message/Encoding.antt =====
-- Which bytes are a message for `from_bytes` of src/encrypt.rs.
use aws_nitro_enclaves_cose.Prelude.{
  ℕ, Bytes, ◌≡◌, ◌↔◌, ◌⊎◌, inl, inr, refl, ◌∙◌, ap, arith, Option, some, none,
}
use mathlib.Core.Path.{subst}
use aws_nitro_enclaves_cose.Outcome.{ok, map_err, map_err-eq-ok, bind-elim, ok-injective}
use aws_nitro_enclaves_cose.Error.{serialization_error}
use aws_nitro_enclaves_cose.Serde.{Cbor, Item, Items, nil, cons, from_slice_tagged}
use aws_nitro_enclaves_cose.HeaderMap
use aws_nitro_enclaves_cose.HeaderMap.{HeaderMap}
use aws_nitro_enclaves_cose.Encrypt.Message.{
  CoseEncrypt0, field_names, of_fields, deserialize, accept_untagged_or_16, from_bytes,
}

module _ {X V : Type 0} (c : Cbor X V) where
  -- A struct whose three fields are those of the message.
  pub record IsStruct (i : Item V) (m : CoseEncrypt0 V) : Type 0 where
    pub protected : Item V
    pub unprotected : Item V
    pub ciphertext : Item V
    pub fields :
        c.struct_fields field_names i ≡ ok (cons protected (cons unprotected (cons ciphertext nil)))
    pub protected_read : c.byte_buf protected ≡ ok m.protected
    pub unprotected_read : HeaderMap.deserialize c unprotected ≡ ok m.unprotected
    pub ciphertext_read : c.byte_buf ciphertext ≡ ok m.ciphertext

  -- What `from_bytes` takes for a message: an item with no tag or the tag 16 in front, which is such a
  -- struct, with the protected field a header map.
  pub record IsMessage (b : Bytes) (m : CoseEncrypt0 V) : Type 0 where
    pub item : Item V
    pub item_read : c.from_slice b ≡ ok item
    pub tag : Option ℕ
    pub content : Item V
    pub untagged : c.untag item ≡ (tag, content)
    pub allowed : (tag ≡ none) ⊎ (tag ≡ some 16)
    pub struct : IsStruct content m
    pub header : HeaderMap V
    pub header_read : HeaderMap.from_bytes c m.protected ≡ ok header

  fields_read :
      (i : Item V) (is : Items V) (m : CoseEncrypt0 V)
      → c.struct_fields field_names i ≡ ok is
      → of_fields c i is ≡ ok m
      → IsStruct i m
  unfolding of_fields
  fields_read i (cons p (cons u (cons t nil))) m f e = bind-elim (c.byte_buf p) _ e λ p' rp e₁.
      bind-elim (HeaderMap.deserialize c u) _ e₁ λ u' ru e₂.
        bind-elim (c.byte_buf t) _ e₂ λ t' rt e₃. subst (IsStruct i) (ok-injective e₃) (record {
          protected = p;
          unprotected = u;
          ciphertext = t;
          fields = f;
          protected_read = rp;
          unprotected_read = ru;
          ciphertext_read = rt;
        })
  fields_read i nil m f e = cc
  fields_read i (cons p nil) m f e = cc
  fields_read i (cons p (cons u nil)) m f e = cc
  fields_read i (cons p (cons u (cons t (cons x is)))) m f e = cc

  IsStruct-of_deserialize :
      (i : Item V) (m : CoseEncrypt0 V) → deserialize c i ≡ ok m → IsStruct i m
  unfolding deserialize
  IsStruct-of_deserialize i m e =
      bind-elim (c.struct_fields field_names i) _ e λ is f e₁. fields_read i is m f e₁

  deserialize-of_IsStruct :
      (i : Item V) (m : CoseEncrypt0 V) → IsStruct i m → deserialize c i ≡ ok m
  unfolding deserialize of_fields
  deserialize-of_IsStruct i m a =
      rw (a.fields, a.protected_read, a.unprotected_read, a.ciphertext_read)

  accept-eq-ok :
      (t : Option ℕ) {u : Unit {0}} → accept_untagged_or_16 c t ≡ ok u → (t ≡ none) ⊎ (t ≡ some 16)
  accept-eq-ok none e = inl refl
  accept-eq-ok (some t) e = inr (ground arith)

  accept_of : (t : Option ℕ) → (t ≡ none) ⊎ (t ≡ some 16) → accept_untagged_or_16 c t ≡ ok tt
  accept_of t (inl e) = rw e
  accept_of t (inr e) = rw e

  IsMessage-of_bytes : (b : Bytes) (m : CoseEncrypt0 V) → from_bytes c b ≡ ok m → IsMessage b m
  unfolding from_bytes from_slice_tagged
  IsMessage-of_bytes b m e =
      bind-elim (map_err serialization_error (from_slice_tagged c (deserialize c) b)) _ e λ p t e₁.
        bind-elim (accept_untagged_or_16 c p.0) _ e₁ λ u a e₂.
          bind-elim (map_err serialization_error (HeaderMap.from_bytes c p.1.protected)) _ e₂
            λ h r e₃. bind-elim (c.from_slice b) _ (map_err-eq-ok _ _ t) λ i s e₄.
              bind-elim (deserialize c (c.untag i).1) _ e₄ λ v d e₅.
                let pair_is = ok-injective e₅ in
                let tag_is : (c.untag i).0 ≡ p.0 =
                  ap (λ (q : Option ℕ × CoseEncrypt0 V). q.0) pair_is in
                let read_is : v ≡ p.1 = ap (λ (q : Option ℕ × CoseEncrypt0 V). q.1) pair_is in
                let m_is : p.1 ≡ m = ok-injective e₃ in
                record {
                  item = i;
                  item_read = s;
                  tag = (c.untag i).0;
                  content = (c.untag i).1;
                  untagged = refl;
                  allowed = rw tag_is (accept-eq-ok p.0 a);
                  struct = IsStruct-of_deserialize (c.untag i).1 m (d ∙ ap ok (read_is ∙ m_is));
                  header = h;
                  header_read = rw (← m_is) (map_err-eq-ok _ _ r);
                }

  bytes-of_IsMessage : (b : Bytes) (m : CoseEncrypt0 V) → IsMessage b m → from_bytes c b ≡ ok m
  unfolding from_bytes from_slice_tagged
  bytes-of_IsMessage b m a = rw (
    a.item_read,
    a.untagged,
    deserialize-of_IsStruct a.content m a.struct,
    accept_of a.tag a.allowed,
    a.header_read,
  )

  -- `from_bytes` gives an encrypted message exactly for the bytes that are one: they hold a struct of
  -- its three fields, the protected one a header map; the outermost tag, if there is one, is 16.
  pub from_bytes_encrypt0_iff :
      (b : Bytes) (m : CoseEncrypt0 V) → (from_bytes c b ≡ ok m) ↔ IsMessage b m
  from_bytes_encrypt0_iff b m = (IsMessage-of_bytes b m, bytes-of_IsMessage b m)
