-- ===== src/Sign/Session/Safety.antt =====
-- What a session hands out was signed in it.
use aws_nitro_enclaves_cose.Prelude.{Bytes, Memᴰ, true, some, ◌≡◌, sym, ◌∙◌}
use aws_nitro_enclaves_cose.Outcome.{ok}
use aws_nitro_enclaves_cose.Serde.{Cbor}
use aws_nitro_enclaves_cose.Serde.Laws.{CborLaws}
use aws_nitro_enclaves_cose.Serde.Injective.{to_vec-injective}
use aws_nitro_enclaves_cose.HeaderMap
use aws_nitro_enclaves_cose.HeaderMap.{HeaderMap}
use aws_nitro_enclaves_cose.Crypto.Traits.{Hash, SigningPrivateKey}
use aws_nitro_enclaves_cose.Crypto.Traits.Trace.{Uses, asks, IsIdeal}
use mathlib.Core.Path.{subst}
use aws_nitro_enclaves_cose.Sign.Message.{CoseSign1}
use aws_nitro_enclaves_cose.Sign.Signing.{verify_signature, get_protected_and_payload, get_payload}
use aws_nitro_enclaves_cose.Sign.Signing.Verify.{
  sig_structure, sig_structure-injective, verify_signature_iff,
}
use aws_nitro_enclaves_cose.Sign.Signing.Release.{get_payload_iff, get_protected_and_payload_iff}
use aws_nitro_enclaves_cose.Sign.Session.{Session, IsReachable}
use aws_nitro_enclaves_cose.Sign.Session.Digests.{IsDigest, Covers-Mem}
use aws_nitro_enclaves_cose.Sign.Session.Invariant.{IsReachable-Accounts}

module _ {X V K : Type 0} (c : Cbor X V) (L : CborLaws c) (h : Hash X) (key : SigningPrivateKey X K)
    (k₀ : K) (I : IsIdeal h key k₀) where
  -- The contents of a message that was signed in the session.
  pub record IsSignedIn (s : Session V K) (protected payload : Bytes) : Type 0 where
    pub original : CoseSign1 V
    pub original_signed : Memᴰ original s.signed
    pub protected_same : original.protected ≡ protected
    pub payload_same : original.payload ≡ payload

  -- A digest belongs to one pair of protected bytes and payload.
  IsDigest-unique :
      (m m' : CoseSign1 V) (d : Bytes)
      → IsDigest c h m d
      → IsDigest c h m' d
      → (m.protected ≡ m'.protected) × (m.payload ≡ m'.payload)
  IsDigest-unique m m' d g g' =
      let same : g.structure ≡ g'.structure =
        I.hash-injective g.algorithm g'.algorithm g.structure g'.structure d g.hashed g'.hashed in
      sig_structure-injective _ _ _ _ (
        to_vec-injective c L (sig_structure m.protected m.payload)
          (sig_structure m'.protected m'.payload) g'.structure (rw (← same) g.structure_written)
          g'.structure_written)

  -- What verifies in a session was signed in it.
  verify_signature-IsSignedIn :
      (s : Session V K) (m : CoseSign1 V)
      → IsReachable c h key k₀ s
      → (verify_signature c h m key.public_key s.key_state).0 ≡ ok true
      → IsSignedIn s m.protected m.payload
  verify_signature-IsSignedIn s m reached e =
      let a = (verify_signature_iff c h m key.public_key s.key_state).0 e in
      let history = IsReachable-Accounts c h key k₀ s reached in
      let uses : Uses key k₀ history.digests a.after =
        subst (Uses key k₀ history.digests) (λ i. (a.parameters i).1) (asks history.uses) in
      let (original, there, g) =
        Covers-Mem c h history.covers (I.verify_signed a.hashed m.signature uses a.accepted) in
      let (protected_same, payload_same) = IsDigest-unique original m a.hashed g record {
        algorithm = a.digest;
        structure = a.structure;
        structure_written = a.structure_written;
        hashed = a.hashed_structure;
      } in
      record {
        original = original;
        original_signed = there;
        protected_same = protected_same;
        payload_same = payload_same;
      }

  -- Whatever a program does with a key and with messages from anywhere, in any order: the payload that
  -- `get_payload` then hands out with the key is that of a message that the program signed before,
  -- with the same protected bytes. The signature scheme and the hash are ideal, and the format reads
  -- back what it writes.
  pub get_payload-IsSignedIn :
      (s : Session V K) (m : CoseSign1 V) (p : Bytes)
      → IsReachable c h key k₀ s
      → (get_payload c h m (some key.public_key) s.key_state).0 ≡ ok p
      → IsSignedIn s m.protected p
  get_payload-IsSignedIn s m p reached e =
      let (verified, payload_is) = (get_payload_iff c h m key.public_key s.key_state p).0 e in
      subst (IsSignedIn s m.protected) (sym payload_is)
        (verify_signature-IsSignedIn s m reached verified)

  -- So with `get_protected_and_payload`, where the headers are those that the message which was signed
  -- holds.
  pub get_protected_and_payload-IsSignedIn :
      (s : Session V K) (m : CoseSign1 V) (header : HeaderMap V) (p : Bytes)
      → IsReachable c h key k₀ s
      → (get_protected_and_payload c h m (some key.public_key) s.key_state).0 ≡ ok (header, p)
      → (original : CoseSign1 V) × Memᴰ original s.signed
        × (HeaderMap.from_bytes c original.protected ≡ ok header)
        × (original.payload ≡ p)
  get_protected_and_payload-IsSignedIn s m header p reached e =
      let (verified, read, payload_is) =
        (get_protected_and_payload_iff c h m key.public_key s.key_state header p).0 e in
      let signed = verify_signature-IsSignedIn s m reached verified in
      (
        signed.original,
        signed.original_signed,
        rw signed.protected_same read,
        signed.payload_same ∙ sym payload_is,
      )
