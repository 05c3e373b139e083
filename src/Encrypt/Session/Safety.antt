-- ===== src/Encrypt/Session/Safety.antt =====
-- What `decrypt` of src/encrypt.rs gives was sent.
use aws_nitro_enclaves_cose.Prelude.{Bytes, List, ◌≡◌, sym, ◌∙◌, ap, refl, Memᴰ}
use mathlib.Core.List.Memᴰ.{head, tail}
use aws_nitro_enclaves_cose.Outcome.{ok, map_err-eq-ok}
use aws_nitro_enclaves_cose.Serde.{Cbor}
use aws_nitro_enclaves_cose.Serde.Laws.{CborLaws}
use aws_nitro_enclaves_cose.Serde.Injective.{to_vec-injective}
use aws_nitro_enclaves_cose.HeaderMap
use aws_nitro_enclaves_cose.HeaderMap.{HeaderMap}
use aws_nitro_enclaves_cose.Crypto.Algorithms.{EncryptionAlgorithm, to_encryption_algorithm}
use aws_nitro_enclaves_cose.Crypto.Traits.{Entropy, Encryption, Decryption}
use aws_nitro_enclaves_cose.Encrypt.Structure
use aws_nitro_enclaves_cose.Encrypt.Structure.{enc_structure}
use aws_nitro_enclaves_cose.Encrypt.Message.{CoseEncrypt0}
use aws_nitro_enclaves_cose.Encrypt.Cipher.{enc_structure_bytes, initialization_vector}
use aws_nitro_enclaves_cose.Encrypt.Decrypt.{decrypt}
use aws_nitro_enclaves_cose.Encrypt.Decrypt.Opened.{IsOpened-of_decrypt}
use aws_nitro_enclaves_cose.Encrypt.Decrypt.RoundTrip.{
  new-IsEncrypted, initialization_vector-unprotected_map,
}
use aws_nitro_enclaves_cose.Encrypt.Session.{Sealing, Sent, History, begin, sends, IsIdealCipher}

module _ {X V W : Type 0} (c : Cbor X V) (L : CborLaws c) (entropy : Entropy X W)
    (encryption : Encryption X) (key : Bytes) (w₀ : W) where
  -- A message that was sent with this payload, header map and IV.
  pub record IsSentIn (ms : List (Sent V)) (header : HeaderMap V) (iv payload : Bytes)
      : Type 0 where
    pub original : Sent V
    pub original_sent : Memᴰ original ms
    pub payload_same : original.payload ≡ payload
    pub header_same : HeaderMap.map_to_empty_or_serialized c header ≡ ok original.message.protected
    pub iv_same : initialization_vector c original.message.unprotected ≡ ok iv

  written : (p b : Bytes) → enc_structure_bytes c p ≡ ok b → c.to_vec (enc_structure p) ≡ ok b
  unfolding enc_structure_bytes Structure.new_encrypt0 Structure.as_bytes Structure.serialize
  written p b e = map_err-eq-ok _ _ e

  enc_structure-injective : (p q : Bytes) → enc_structure {V = V} p ≡ enc_structure q → p ≡ q
  enc_structure-injective p q e = cc

  -- The additional data of the cipher belong to one protected string.
  enc_structure_bytes-injective :
      (p q b : Bytes) → enc_structure_bytes c p ≡ ok b → enc_structure_bytes c q ≡ ok b → p ≡ q
  enc_structure_bytes-injective p q b e f =
      enc_structure-injective p q
        (to_vec-injective c L (enc_structure p) (enc_structure q) b (written p b e) (written q b f))

  -- What the cipher was given belongs to a message that was sent.
  record IsSealed (ms : List (Sent V)) (iv aad payload : Bytes) : Type 0 where
    pub original : Sent V
    pub original_sent : Memᴰ original ms
    pub payload_same : original.payload ≡ payload
    pub aad_same : enc_structure_bytes c original.message.protected ≡ ok aad
    pub iv_same : initialization_vector c original.message.unprotected ≡ ok iv

  IsSealed-of_sent :
      {w : W} {hs : List Sealing} {ms : List (Sent V)} (a : EncryptionAlgorithm)
      (iv aad payload : Bytes)
      → History c entropy encryption key w₀ w hs ms
      → Memᴰ (a, iv, aad, payload) hs
      → IsSealed ms iv aad payload
  IsSealed-of_sent a iv aad payload begin i = elim i [ ]
  IsSealed-of_sent a iv aad payload (sends p config m e rest) (tail i) =
      let before = IsSealed-of_sent a iv aad payload rest i in
      record {
        original = before.original;
        original_sent = tail before.original_sent;
        payload_same = before.payload_same;
        aad_same = before.aad_same;
        iv_same = before.iv_same;
      }
  IsSealed-of_sent a iv aad payload (sends {w} p config m e rest) (head same) =
      let g = new-IsEncrypted c entropy encryption p config key w m e in
      let iv_is : iv ≡ g.iv = ap (λ (x : Sealing). x.1) same in
      let aad_is : aad ≡ g.aad = ap (λ (x : Sealing). x.2) same in
      record {
        original = record { payload = p; message = m };
        original_sent = head refl;
        payload_same = sym (ap (λ (x : Sealing). x.3) same);
        aad_same = g.aad_written ∙ ap ok (sym aad_is);
        iv_same =
            ap (initialization_vector c) g.unprotected_made
            ∙ initialization_vector-unprotected_map c L g.iv
            ∙ ap ok (sym iv_is);
      }

  -- Whatever messages arrive: what `decrypt` gives with the key is the payload of a message that the
  -- sender made with `new`, with the same header map and the same IV. The cipher opens only what it was
  -- given in the sender's history, and the format reads back what it writes.
  pub decrypt-IsSentIn :
      {w : W} {hs : List Sealing} {ms : List (Sent V)} (decryption : Decryption X)
      (m : CoseEncrypt0 V) (header unprotected : HeaderMap V) (payload : Bytes)
      → History c entropy encryption key w₀ w hs ms
      → IsIdealCipher decryption key hs
      → decrypt c decryption m key ≡ ok (header, unprotected, payload)
      → (iv : Bytes) × (initialization_vector c m.unprotected ≡ ok iv)
        × IsSentIn ms header iv payload
  decrypt-IsSentIn decryption m header unprotected payload history ideal e =
      let o = (IsOpened-of_decrypt c decryption m key header unprotected payload e).1 in
      let found =
        ideal.opens_sealed (to_encryption_algorithm o.alg) o.iv o.aad o.text o.tag payload
          o.accepted in
      let s = IsSealed-of_sent (to_encryption_algorithm o.alg) o.iv o.aad payload history found in
      let same : o.protected ≡ s.original.message.protected =
        enc_structure_bytes-injective o.protected s.original.message.protected o.aad o.aad_written
          s.aad_same in
      (
        o.iv,
        o.iv_found,
        record {
          original = s.original;
          original_sent = s.original_sent;
          payload_same = s.payload_same;
          header_same = o.protected_written ∙ ap ok same;
          iv_same = s.iv_same;
        },
      )
