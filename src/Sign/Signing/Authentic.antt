-- ===== src/Sign/Signing/Authentic.antt =====
-- Why the contents that `get_payload` of src/sign.rs hands out can be trusted.
use aws_nitro_enclaves_cose.Prelude.{Bytes, true, ◌≡◌, sym, ◌∙◌, some}
use mathlib.Core.Path.{subst}
use aws_nitro_enclaves_cose.Outcome.{ok}
use aws_nitro_enclaves_cose.Serde.{Cbor}
use aws_nitro_enclaves_cose.Serde.Laws.{CborLaws}
use aws_nitro_enclaves_cose.Serde.Injective.{to_vec-injective}
use aws_nitro_enclaves_cose.Crypto.Algorithms.{MessageDigest}
use aws_nitro_enclaves_cose.Crypto.Traits.{Hash, SigningPublicKey}
use aws_nitro_enclaves_cose.Sign.Message.{CoseSign1}
use aws_nitro_enclaves_cose.Sign.Signing.{get_payload}
use aws_nitro_enclaves_cose.Sign.Signing.Verify.{
  sig_structure, sig_structure-injective, verify_signature_iff,
}
use aws_nitro_enclaves_cose.Sign.Signing.Release.{get_payload_iff}

module _ {X V K : Type 0} (c : Cbor X V) (h : Hash X) (key : SigningPublicKey X K)
    (Released : Bytes → Bytes → Type 0) where
  -- An ideal signature scheme of a signer who signs just the protected bytes and payloads in
  -- `Released`: the hash has no collisions, and the key accepts no digest but theirs.
  pub record IsUnforgeable : Type 0 where
    pub hash-injective :
        (a b : MessageDigest) (x y d : Bytes) → h.hash a x ≡ ok d → h.hash b y ≡ ok d → x ≡ y
    pub signed :
        (d s : Bytes) (k : K)
        → (key.verify d s k).0 ≡ ok true
        → (protected : Bytes) × (payload : Bytes) × (structure : Bytes) × (a : MessageDigest)
          × Released protected payload
          × (c.to_vec (sig_structure protected payload) ≡ ok structure)
          × (h.hash a structure ≡ ok d)

  module _ (L : CborLaws c) (U : IsUnforgeable) where
    -- Whatever `get_payload` hands out with the key was released by the signer, together with the
    -- message's own protected headers: no other payload, and no payload under other headers, passes.
    -- The signature scheme is ideal and the format reads back what it writes.
    pub get_payload_authentic :
        (m : CoseSign1 V) (k : K) (p : Bytes)
        → (get_payload c h m (some key) k).0 ≡ ok p
        → Released m.protected p
    get_payload_authentic m k p e =
        let (verified, payload_is) = (get_payload_iff c h m key k p).0 e in
        let a = (verify_signature_iff c h m key k).0 verified in
        let (protected, payload, structure, b, released, written, hashed) =
          U.signed a.hashed m.signature a.after a.accepted in
        let same : a.structure ≡ structure =
          U.hash-injective a.digest b a.structure structure a.hashed a.hashed_structure hashed in
        let item_is : sig_structure {V = V} m.protected m.payload
            ≡ sig_structure protected payload =
          to_vec-injective c L _ _ structure (rw (← same) a.structure_written) written in
        let (protected_is, same_payload) = sig_structure-injective _ _ _ _ item_is in
        subst (Released m.protected) (sym (payload_is ∙ same_payload))
          (subst (λ (q : Bytes). Released q payload) (sym protected_is) released)
