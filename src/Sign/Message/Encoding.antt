-- ===== src/Sign/Message/Encoding.antt =====
-- Which items and bytes are a message for the readers of src/sign.rs.
use aws_nitro_enclaves_cose.Prelude.{
  ℕ, Bytes, String, ◌≡◌, ◌↔◌, ◌⊎◌, inl, inr, refl, ◌∙◌, ap, arith, Option, some, none,
}
use mathlib.Core.Path.{subst}
use aws_nitro_enclaves_cose.Outcome.{Outcome, ok, map_err, map_err-eq-ok, bind-elim, ok-injective}
use aws_nitro_enclaves_cose.Error.{serialization_error}
use aws_nitro_enclaves_cose.Serde.{
  Cbor, Item, Items, bytes, str, entries, seq, tagged, other, nil, cons, from_slice_tagged,
}
use aws_nitro_enclaves_cose.Serde.Laws.{CborLaws}
use aws_nitro_enclaves_cose.HeaderMap
use aws_nitro_enclaves_cose.HeaderMap.{HeaderMap}
use aws_nitro_enclaves_cose.Sign.Message.{
  CoseSign1, element, visit_seq, deserialize, accept_untagged_or_18, from_bytes,
}

module _ {X V : Type 0} (c : Cbor X V) where
  -- Items of which the first four hold the fields, and the rest.
  pub record StartsWith (items : Items V) (m : CoseSign1 V) (rest : Items V) : Type 0 where
    pub protected : Item V
    pub unprotected : Item V
    pub payload : Item V
    pub signature : Item V
    pub four : items ≡ cons protected (cons unprotected (cons payload (cons signature rest)))
    pub protected_read : c.byte_buf protected ≡ ok m.protected
    pub unprotected_read : HeaderMap.deserialize c unprotected ≡ ok m.unprotected
    pub payload_read : c.byte_buf payload ≡ ok m.payload
    pub signature_read : c.byte_buf signature ≡ ok m.signature

  -- An array of just the four items, under any number of tags.
  abbrev pub IsEncoding : Item V → CoseSign1 V → Type 0
  IsEncoding (seq items) m = StartsWith items m nil
  IsEncoding (tagged t i) m = IsEncoding i m
  IsEncoding (bytes b) m = ⊥
  IsEncoding (str b) m = ⊥
  IsEncoding (entries es) m = ⊥
  IsEncoding (other v) m = ⊥

  -- What `from_bytes` takes for a message: an item with no tag or the tag 18 in front, which holds an
  -- array of the four fields, with the protected field a header map.
  pub record IsMessage (b : Bytes) (m : CoseSign1 V) : Type 0 where
    pub item : Item V
    pub item_read : c.from_slice b ≡ ok item
    pub tag : Option ℕ
    pub content : Item V
    pub untagged : c.untag item ≡ (tag, content)
    pub allowed : (tag ≡ none) ⊎ (tag ≡ some 18)
    pub encoding : IsEncoding content m
    pub header : HeaderMap V
    pub header_read : HeaderMap.from_bytes c m.protected ≡ ok header

  element-eq-ok :
      {A : Type 0} (read : Item V → Outcome X A) (name : String) (items : Items V) {r : A × Items V}
      → element c read name items ≡ ok r
      → (i : Item V) × (items ≡ cons i r.1) × (read i ≡ ok r.0)
  unfolding element
  element-eq-ok read name nil e = cc
  element-eq-ok read name (cons i rest) {r} e = bind-elim (read i) _ e λ v p q.
      let r_is = ok-injective q in
      subst (λ (s : _ × Items V). (j : Item V) × (cons i rest ≡ cons j s.1) × (read j ≡ ok s.0))
        r_is (i, refl, p)

  visit_seq-eq-ok :
      (items : Items V) {r : CoseSign1 V × Items V}
      → visit_seq c items ≡ ok r
      → StartsWith items r.0 r.1
  unfolding visit_seq
  visit_seq-eq-ok items e = bind-elim (element c c.byte_buf "protected" items) _ e λ p t e₁.
      bind-elim (element c (HeaderMap.deserialize c) "unprotected" p.1) _ e₁ λ u t₁ e₂.
        bind-elim (element c c.byte_buf "payload" u.1) _ e₂ λ y t₂ e₃.
          bind-elim (element c c.byte_buf "signature" y.1) _ e₃ λ s t₃ e₄.
            let (i, f, g) = element-eq-ok c.byte_buf "protected" items t in
            let (i₁, f₁, g₁) = element-eq-ok (HeaderMap.deserialize c) "unprotected" p.1 t₁ in
            let (i₂, f₂, g₂) = element-eq-ok c.byte_buf "payload" u.1 t₂ in
            let (i₃, f₃, g₃) = element-eq-ok c.byte_buf "signature" y.1 t₃ in
            subst (λ (q : CoseSign1 V × Items V). StartsWith items q.0 q.1) (ok-injective e₄)
              (record {
                protected = i;
                unprotected = i₁;
                payload = i₂;
                signature = i₃;
                four = f ∙ ap (cons i) (f₁ ∙ ap (cons i₁) (f₂ ∙ ap (cons i₂) f₃));
                protected_read = g;
                unprotected_read = g₁;
                payload_read = g₂;
                signature_read = g₃;
              })

  module _ (L : CborLaws c) where
    StartsWith-of_seq :
        (items : Items V) (m : CoseSign1 V)
        → deserialize c (seq items) ≡ ok m
        → StartsWith items m nil
    unfolding deserialize
    StartsWith-of_seq items m e = bind-elim (visit_seq c items) _ e λ r t e₁.
        bind-elim (c.end_seq r.1) _ e₁ λ u v e₂.
          let m_is : r.0 ≡ m = ok-injective e₂ in
          let nothing : r.1 ≡ nil = L.end_seq-eq-ok r.1 v in
          rw (← m_is, ← nothing) (visit_seq-eq-ok items t)

    seq-of_StartsWith :
        (items : Items V) (m : CoseSign1 V)
        → StartsWith items m nil
        → deserialize c (seq items) ≡ ok m
    unfolding deserialize visit_seq element
    seq-of_StartsWith items m a = rw (
      a.four, a.protected_read, a.unprotected_read, a.payload_read, a.signature_read, L.end_seq-nil,
    )

    IsEncoding-of_deserialize :
        (i : Item V) (m : CoseSign1 V) → deserialize c i ≡ ok m → IsEncoding i m
    unfolding deserialize
    IsEncoding-of_deserialize (seq items) m e = StartsWith-of_seq items m e
    IsEncoding-of_deserialize (tagged t i) m e = IsEncoding-of_deserialize i m e
    IsEncoding-of_deserialize (bytes b) m e = cc
    IsEncoding-of_deserialize (str b) m e = cc
    IsEncoding-of_deserialize (entries es) m e = cc
    IsEncoding-of_deserialize (other v) m e = cc

    deserialize-of_IsEncoding :
        (i : Item V) (m : CoseSign1 V) → IsEncoding i m → deserialize c i ≡ ok m
    unfolding deserialize
    deserialize-of_IsEncoding (seq items) m a = seq-of_StartsWith items m a
    deserialize-of_IsEncoding (tagged t i) m a = deserialize-of_IsEncoding i m a
    deserialize-of_IsEncoding (bytes b) m a = absurd a
    deserialize-of_IsEncoding (str b) m a = absurd a
    deserialize-of_IsEncoding (entries es) m a = absurd a
    deserialize-of_IsEncoding (other v) m a = absurd a

    accept-eq-ok :
        (t : Option ℕ) {u : Unit {0}}
        → accept_untagged_or_18 {X = X} c t ≡ ok u
        → (t ≡ none) ⊎ (t ≡ some 18)
    accept-eq-ok none e = inl refl
    accept-eq-ok (some t) e = inr (ground arith)

    IsMessage-of_bytes : (b : Bytes) (m : CoseSign1 V) → from_bytes c b ≡ ok m → IsMessage b m
    unfolding from_bytes from_slice_tagged
    IsMessage-of_bytes b m e =
        bind-elim (map_err serialization_error (from_slice_tagged c (deserialize c) b)) _ e
          λ p t e₁. bind-elim (accept_untagged_or_18 c p.0) _ e₁ λ u a e₂.
            bind-elim (map_err serialization_error (HeaderMap.from_bytes c p.1.protected)) _ e₂
              λ h r e₃. bind-elim (c.from_slice b) _ (map_err-eq-ok _ _ t) λ i s e₄.
                bind-elim (deserialize c (c.untag i).1) _ e₄ λ v d e₅.
                  let pair_is = ok-injective e₅ in
                  let tag_is : (c.untag i).0 ≡ p.0 =
                    ap (λ (q : Option ℕ × CoseSign1 V). q.0) pair_is in
                  let read_is : v ≡ p.1 = ap (λ (q : Option ℕ × CoseSign1 V). q.1) pair_is in
                  let m_is : p.1 ≡ m = ok-injective e₃ in
                  record {
                    item = i;
                    item_read = s;
                    tag = (c.untag i).0;
                    content = (c.untag i).1;
                    untagged = refl;
                    allowed = rw tag_is (accept-eq-ok p.0 a);
                    encoding =
                        IsEncoding-of_deserialize (c.untag i).1 m (d ∙ ap ok (read_is ∙ m_is));
                    header = h;
                    header_read = rw (← m_is) (map_err-eq-ok _ _ r);
                  }

    accept_of : (t : Option ℕ) → (t ≡ none) ⊎ (t ≡ some 18) → accept_untagged_or_18 c t ≡ ok tt
    accept_of t (inl e) = rw e
    accept_of t (inr e) = rw e

    bytes-of_IsMessage : (b : Bytes) (m : CoseSign1 V) → IsMessage b m → from_bytes c b ≡ ok m
    unfolding from_bytes from_slice_tagged
    bytes-of_IsMessage b m a = rw (
      a.item_read,
      a.untagged,
      deserialize-of_IsEncoding a.content m a.encoding,
      accept_of a.tag a.allowed,
      a.header_read,
    )

    -- `from_bytes` gives a message exactly for the bytes that are one: their outermost tag, if there is
    -- one, is 18, and under it and any further tags stands an array of just four items, which are the
    -- message's fields, the protected one the bytes of a header map. The format asks for a sequence to
    -- be read to its end.
    pub from_bytes_iff : (b : Bytes) (m : CoseSign1 V) → (from_bytes c b ≡ ok m) ↔ IsMessage b m
    from_bytes_iff b m = (IsMessage-of_bytes b m, bytes-of_IsMessage b m)
