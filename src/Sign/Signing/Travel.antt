-- ===== src/Sign/Signing/Travel.antt =====
-- A message of src/sign.rs from its signer to its reader: `new`, `as_bytes`, `from_bytes` and
-- `get_payload`.
use aws_nitro_enclaves_cose.Prelude.{Bytes, Bool, ◌≡◌, sym, some}
use aws_nitro_enclaves_cose.Outcome.{ok}
use aws_nitro_enclaves_cose.OrderedMap.Order.{IsSorted}
use aws_nitro_enclaves_cose.Serde.{Cbor}
use aws_nitro_enclaves_cose.Serde.Laws.{CborLaws}
use aws_nitro_enclaves_cose.HeaderMap.{HeaderMap}
use aws_nitro_enclaves_cose.Crypto.Traits.Contracts.{IsSound, IsReader, public_key-IsReader}
use aws_nitro_enclaves_cose.Crypto.Traits.{Hash, SigningPublicKey, SigningPrivateKey}
use aws_nitro_enclaves_cose.Sign.Message.{CoseSign1, as_bytes, from_bytes}
use aws_nitro_enclaves_cose.Sign.Message.RoundTrip.{from_bytes-as_bytes}
use aws_nitro_enclaves_cose.Sign.Signing.{new, get_payload}
use aws_nitro_enclaves_cose.Sign.Signing.Verify.{verify_signature_of}
use aws_nitro_enclaves_cose.Sign.Signing.Create.{new-IsSigned, IsAccepted-new}
use aws_nitro_enclaves_cose.Sign.Signing.Release.{get_payload_iff}

module _ {X V K : Type 0} (c : Cbor X V) (L : CborLaws c) (h : Hash X) (key : SigningPrivateKey X K)
    (S : IsSound key) where
  -- A message that was signed with a sound key, from its signer to a reader of the key, which may be
  -- another party's.
  pub get_payload-from_bytes-as_bytes-new_reader :
      {K' : Type 0} (reader : SigningPublicKey X K') (R : IsReader key S reader) (payload : Bytes)
      (unprotected : HeaderMap V) (k : K) (k' : K') (m : CoseSign1 V) (is_tagged : Bool) (b : Bytes)
      → IsSorted c.cmp unprotected
      → (new c h key payload unprotected k).0 ≡ ok m
      → as_bytes c m is_tagged ≡ ok b
      → (from_bytes c b ≡ ok m) × ((get_payload c h m (some reader) k').0 ≡ ok payload)
  get_payload-from_bytes-as_bytes-new_reader reader R payload unprotected k k' m is_tagged b sorted
        e w =
      let a = IsAccepted-new c h key S reader R L payload unprotected k k' m e in
      let g = new-IsSigned c h key S payload unprotected k m e in
      (
        from_bytes-as_bytes c L m a.header is_tagged b (rw g.unprotected_kept sorted) a.header_read
            w,
        (get_payload_iff c h m reader k' payload).1
            (verify_signature_of c h m reader k' a, sym g.payload_kept),
      )

  -- A payload that a sound key signed with `new` and written with `as_bytes`, tagged or not, is what a
  -- reader gets: `from_bytes` gives the signer's message, and `get_payload` with the key the payload,
  -- at any later time. The unprotected map is well formed and the format reads back what it writes.
  pub get_payload-from_bytes-as_bytes-new :
      (payload : Bytes) (unprotected : HeaderMap V) (k k' : K) (m : CoseSign1 V) (is_tagged : Bool)
      (b : Bytes)
      → IsSorted c.cmp unprotected
      → (new c h key payload unprotected k).0 ≡ ok m
      → as_bytes c m is_tagged ≡ ok b
      → (from_bytes c b ≡ ok m) × ((get_payload c h m (some key.public_key) k').0 ≡ ok payload)
  get_payload-from_bytes-as_bytes-new =
      get_payload-from_bytes-as_bytes-new_reader key.public_key (public_key-IsReader key S)
