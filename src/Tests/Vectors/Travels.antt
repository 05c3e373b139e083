-- ===== src/Tests/Vectors/Travels.antt =====
-- Tests of src/sign.rs that make their keys, at every sound key.
use aws_nitro_enclaves_cose.Prelude.{
  String, ◌≡◌, refl, ◌≢◌, ◌∙◌, sym, true, false, [], Bool, Bytes, ◌∷◌, some, none, pos,
}
use aws_nitro_enclaves_cose.Outcome.{ok}
use aws_nitro_enclaves_cose.OrderedMap
use aws_nitro_enclaves_cose.HeaderMap
use aws_nitro_enclaves_cose.HeaderMap.{HeaderMap}
use aws_nitro_enclaves_cose.Crypto.Algorithms.{es384, es512, sha384}
use aws_nitro_enclaves_cose.Crypto.Traits.{Hash, SigningPublicKey, SigningPrivateKey}
use aws_nitro_enclaves_cose.Crypto.Traits.Contracts.{IsSound, IsReader}
use aws_nitro_enclaves_cose.Sign.Message.{CoseSign1, as_bytes, from_bytes}
use aws_nitro_enclaves_cose.Sign.Signing.{new, verify_signature, get_payload, get_unprotected}
use aws_nitro_enclaves_cose.Sign.Signing.Create.{verify_signature-new, new-IsSigned}
use aws_nitro_enclaves_cose.Sign.Signing.Travel.{get_payload-from_bytes-as_bytes-new_reader}
use aws_nitro_enclaves_cose.Sign.Signing.Release.{get_payload_unchecked}
use aws_nitro_enclaves_cose.Sign.Signing.Rejected.{verify_signature-new_other_algorithm}
use aws_nitro_enclaves_cose.Tests.Value.{Value, int, blob}
use aws_nitro_enclaves_cose.Tests.Format.{format, format-CborLaws}
use aws_nitro_enclaves_cose.Tests.Vectors.{text}

-- `{4: '11'}`
abbrev kid : HeaderMap Value
kid = (int (pos 4), blob (0x31 ∷ 0x31 ∷ [])) ∷ []

kid_found : HeaderMap.get format (int (pos 4)) kid ≡ some (blob (0x31 ∷ 0x31 ∷ []))
unfolding HeaderMap.get OrderedMap.get
kid_found = refl

es512_not_es384 : es512 ≢ es384
es512_not_es384 = λ e. cc

module _ {K K' : Type 0} (h : Hash String) (key : SigningPrivateKey String K) (S : IsSound key)
    (k k' : K) (m : CoseSign1 Value) (e : (new format h key text kid k).0 ≡ ok m) where
  -- validate_with_wrong_key_type: the key of ES512 that signed the text accepts it, and a key of
  -- ES384 does not.
  validate_with_wrong_key_type :
      (other_key : SigningPublicKey String K') (j after : K')
      → S.algorithm ≡ es512
      → other_key.get_parameters j ≡ (ok (es384, sha384), after)
      → ((verify_signature format h m key.public_key k').0 ≡ ok true)
        × (verify_signature format h m other_key j ≡ (ok false, after))
  validate_with_wrong_key_type other_key j after signer reader = (
    verify_signature-new format h key S format-CborLaws text kid k k' m e,
    verify_signature-new_other_algorithm format format-CborLaws h key S other_key text kid k j after
        es384 sha384 m reader (λ same. es512_not_es384 (sym signer ∙ same)) e,
  )

  -- cose_sign1_ec256_text, and the same for the other curves and for tagged bytes: the message read
  -- back gives its reader, with the public key, the payload that the signer sees without one, and has
  -- the unprotected header that was set.
  cose_sign1_text :
      (reader : SigningPublicKey String K') (j : K') (is_tagged : Bool) (b : Bytes)
      → IsReader key S reader
      → as_bytes format m is_tagged ≡ ok b
      → (from_bytes format b ≡ ok m)
        × ((get_payload format h m none k').0 ≡ (get_payload format h m (some reader) j).0)
        × (HeaderMap.get format (int (pos 4)) (get_unprotected m) ≡ some (blob (0x31 ∷ 0x31 ∷ [])))
  unfolding get_unprotected
  cose_sign1_text reader j is_tagged b R written =
      let g = new-IsSigned format h key S text kid k m e in
      let (read, released) =
        get_payload-from_bytes-as_bytes-new_reader format format-CborLaws h key S reader R text kid
          k j m is_tagged b (tt, tt) e written in
      let unchecked = (get_payload_unchecked format h m k').0 in
      (read, rw (unchecked, released, g.payload_kept) refl, rw g.unprotected_kept kid_found)
