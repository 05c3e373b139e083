-- ===== src/Sign/Signing/Panics.antt =====
-- When a message that came from outside makes `get_payload` of src/sign.rs panic.
use aws_nitro_enclaves_cose.Prelude.{◌<◌, Bytes, ◌≡◌, ◌↔◌, some, length, arith}
use aws_nitro_enclaves_cose.Outcome.{panic}
use aws_nitro_enclaves_cose.Outcome.Ensures.{Total, returns}
use aws_nitro_enclaves_cose.Serde.{Cbor}
use aws_nitro_enclaves_cose.Serde.Laws.{IsTotal}
use aws_nitro_enclaves_cose.Crypto.Algorithms.{MessageDigest, key_length}
use aws_nitro_enclaves_cose.Crypto.Traits.{Hash}
use aws_nitro_enclaves_cose.Crypto.Openssl.Library.{EllipticCurves, EllipticCurvesLaws}
use aws_nitro_enclaves_cose.Crypto.OpensslPkey.{public_key}
use aws_nitro_enclaves_cose.Crypto.OpensslPkey.Sound.{IsUsable, get_parameters-eq}
use aws_nitro_enclaves_cose.Crypto.OpensslPkey.Panics
use aws_nitro_enclaves_cose.Crypto.OpensslPkey.Panics.{verify_panic_iff_openssl}
use aws_nitro_enclaves_cose.Sign.Message.{CoseSign1}
use aws_nitro_enclaves_cose.Sign.Signing.{check_key, get_payload, verify_signature}
use aws_nitro_enclaves_cose.Sign.Signing.Verify.{IsReached}
use aws_nitro_enclaves_cose.Sign.Signing.Outcomes.{verify_signature_panic_iff}

module _ {X V W PKey EcKey EcdsaSig : Type 0} (c : Cbor X V) (T : IsTotal c) (h : Hash X)
    (hash_total : (a : MessageDigest) (b : Bytes) → Total (h.hash a b))
    (lib : EllipticCurves X W PKey EcKey EcdsaSig) (L : EllipticCurvesLaws lib)
    (library_total : Panics.IsTotal lib) (pkey : PKey) (u : IsUsable lib pkey) where
  get_payload-panic :
      (m : CoseSign1 V) (w : W)
      → ((get_payload c h m (some (public_key lib pkey)) w).0 ≡ panic)
        ↔ ((verify_signature c h m (public_key lib pkey) w).0 ≡ panic)
  unfolding get_payload check_key
  get_payload-panic m w = ground arith

  parameters-Total : (w : W) → Total ((public_key lib pkey).get_parameters w).0
  parameters-Total w = rw (get_parameters-eq lib L pkey u) (returns tt)

  -- With an OpenSSL key on one of the three curves, `get_payload` panics on exactly the messages whose
  -- protected headers name the key's algorithm, whose Sig_structure is written and hashed, and whose
  -- signature is shorter than one number of the curve: whoever sends such a message ends the reader.
  -- The format, the hash and the library do not panic.
  pub get_payload_panic_iff :
      (m : CoseSign1 V) (w : W)
      → ((get_payload c h m (some (public_key lib pkey)) w).0 ≡ panic)
        ↔ (IsReached c h m (public_key lib pkey) w × (length m.signature < key_length u.algorithm))
  get_payload_panic_iff m w =
      let key = public_key lib pkey in
      let panics = verify_signature_panic_iff c T h hash_total key parameters-Total m w in
      let short =
        λ (d : Bytes). verify_panic_iff_openssl lib library_total L pkey u d m.signature in
      (
        λ e. let (r, p) = panics.0 ((get_payload-panic m w).0 e) in (r, (short r.hashed).0 p),
        λ (r, s). (get_payload-panic m w).1 (panics.1 (r, (short r.hashed).1 s)),
      )
