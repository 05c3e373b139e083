-- ===== src/Sign/Signing/Live.antt =====
-- That `new` of src/sign.rs gives a message that its readers get, unless one of its parts fails.
use aws_nitro_enclaves_cose.Prelude.{pos, Bytes, ◌≡◌, some, [], ◌∷◌, sym, refl, ◌∙◌}
use mathlib.Core.Path.{subst}
use aws_nitro_enclaves_cose.OrderedMap
use aws_nitro_enclaves_cose.Outcome.{Outcome, ok, err, map_err, map_err-eq-ok, map_err-eq-err}
use aws_nitro_enclaves_cose.Outcome
use aws_nitro_enclaves_cose.Outcome.Ensures.{
  Ensures, Total, returns, Ensures-of_Total, Total-resume, Total-bind, Total-map_err,
}
use aws_nitro_enclaves_cose.Call.{lift, err-elim}
use aws_nitro_enclaves_cose.Error.{CoseError, serialization_error, signature_error, cose}
use aws_nitro_enclaves_cose.Serde.{Cbor, Item, entries}
use aws_nitro_enclaves_cose.Serde.Laws.{CborLaws, IsTotal}
use aws_nitro_enclaves_cose.HeaderMap
use aws_nitro_enclaves_cose.HeaderMap.{HeaderMap}
use aws_nitro_enclaves_cose.HeaderMap.Total.{map_to_empty_or_serialized-Total}
use aws_nitro_enclaves_cose.Crypto.Algorithms.{MessageDigest, discriminant}
use aws_nitro_enclaves_cose.Crypto.Traits.{Hash, SigningPrivateKey}
use aws_nitro_enclaves_cose.Crypto.Traits.Contracts.{IsSound}
use aws_nitro_enclaves_cose.Sign.Structure
use aws_nitro_enclaves_cose.Sign.Signing.{new, new_with_protected, get_payload}
use aws_nitro_enclaves_cose.Sign.Signing.Verify.{sig_structure, struct_digest-eq-ok}
use aws_nitro_enclaves_cose.Sign.Signing.Create.{
  algorithm_map, new-eq, new-IsSigned, verify_signature-new,
}
use aws_nitro_enclaves_cose.Sign.Signing.Release.{get_payload_iff}

module _ {X V K : Type 0} (c : Cbor X V) (h : Hash X) (key : SigningPrivateKey X K)
    (S : IsSound key) where
  -- The header map that names the key's algorithm.
  abbrev pub named : Item V
  named = entries ((c.of_integer (pos 1), c.of_integer (discriminant S.algorithm)) ∷ [])

  -- Why nothing is signed, with the error that says so. Each reason comes after the parts that have
  -- to succeed before it.
  pub data IsNotSigned (payload : Bytes) (k : K) : CoseError X → Type 0 where
    map_unwritten : {x : X} → c.to_vec named ≡ err x → IsNotSigned payload k (serialization_error x)
    structure_unwritten :
        {x : X} (protected : Bytes)
        → c.to_vec named ≡ ok protected
        → c.to_vec (sig_structure protected payload) ≡ err x
        → IsNotSigned payload k (serialization_error x)
    of_hash :
        {e : CoseError X} (protected structure : Bytes)
        → c.to_vec named ≡ ok protected
        → c.to_vec (sig_structure protected payload) ≡ ok structure
        → h.hash S.digest structure ≡ err e
        → IsNotSigned payload k (signature_error (cose e))
    of_key :
        {e : CoseError X} (protected structure hashed : Bytes)
        → c.to_vec named ≡ ok protected
        → c.to_vec (sig_structure protected payload) ≡ ok structure
        → h.hash S.digest structure ≡ ok hashed
        → (key.sign hashed k).0 ≡ err e
        → IsNotSigned payload k e

  map_written : HeaderMap.map_to_empty_or_serialized c (algorithm_map c h key S) ≡ c.to_vec named
  unfolding HeaderMap.map_to_empty_or_serialized HeaderMap.is_empty OrderedMap.is_empty
      HeaderMap.insert OrderedMap.insert
  map_written = refl

  digest-IsNotSigned :
      (payload protected : Bytes) (k : K) (e : CoseError X)
      → c.to_vec named ≡ ok protected
      → Structure.struct_digest c h S.digest protected payload ≡ err e
      → IsNotSigned payload k e
  unfolding Structure.struct_digest Structure.new_sign1 Structure.as_bytes Structure.serialize
  digest-IsNotSigned payload protected k e made q =
      let R = IsNotSigned payload k in
      Outcome.err-elim (map_err serialization_error (c.to_vec (sig_structure protected payload))) _
        q
        (λ w.
          let (x, unmade, same) = map_err-eq-err _ _ w in
          subst R (sym same) (structure_unwritten protected made unmade))
        λ b w q₁.
          let (x, failed, same) = map_err-eq-err _ _ q₁ in
          subst R (sym same) (of_hash protected b made (map_err-eq-ok _ _ w) failed)

  new-IsNotSigned :
      (payload : Bytes) (unprotected : HeaderMap V) (k : K) (e : CoseError X)
      → (new c h key payload unprotected k).0 ≡ err e
      → IsNotSigned payload k e
  unfolding new_with_protected
  new-IsNotSigned payload unprotected k e q =
      let R = IsNotSigned payload k in
      let map = algorithm_map c h key S in
      err-elim (lift (map_err serialization_error (HeaderMap.map_to_empty_or_serialized c map))) _ k
        (rw (new-eq c h key S payload unprotected k, S.get_parameters-eq k) at q)
        (λ w.
          let (x, unmade, same) = map_err-eq-err _ _ w in
          subst R (sym same) (map_unwritten (sym map_written ∙ unmade)))
        λ b w q₁.
          let made = sym map_written ∙ map_err-eq-ok _ _ w in
          err-elim (lift (Structure.struct_digest c h S.digest b payload)) _ k q₁
            (digest-IsNotSigned payload b k e made)
            λ d s q₂.
              let (structure, written, hashed) = struct_digest-eq-ok c h S.digest b payload s in
              err-elim (key.sign d) _ k q₂ (of_key b structure d made written hashed) λ g t q₃. cc

  module _ (T : IsTotal c) (hash_total : (a : MessageDigest) (b : Bytes) → Total (h.hash a b))
      (sign_total : (d : Bytes) (k : K) → Total (key.sign d k).0) where
    struct_digest-Total :
        (protected payload : Bytes) → Total (Structure.struct_digest c h S.digest protected payload)
    unfolding Structure.struct_digest Structure.new_sign1 Structure.as_bytes
    struct_digest-Total protected payload =
        Total-bind (Total-map_err serialization_error (T.to_vec-Total _))
          λ b. Total-map_err (λ e. signature_error (cose e)) (hash_total S.digest b)

    new-Total :
        (payload : Bytes) (unprotected : HeaderMap V) (k : K)
        → Total (new c h key payload unprotected k).0
    unfolding new_with_protected
    new-Total payload unprotected k =
        rw (new-eq c h key S payload unprotected k, S.get_parameters-eq k)
          (Total-resume _ k
            (Total-map_err serialization_error
              (map_to_empty_or_serialized-Total c T (algorithm_map c h key S)))
            λ b w.
              Total-resume _ k (struct_digest-Total b payload)
                λ d s. Total-resume _ (key.sign d k).1 (sign_total d k) λ g t. returns tt)

    -- For every payload and every unprotected map `new` ends without a panic. It gives a message from
    -- which `get_payload` with the key gives the payload, with the key in any state; or else an error
    -- that says why: the format does not write the header map of the key's algorithm or the
    -- Sig_structure over it and the payload, the hash failed on that structure, or the key failed to
    -- sign its hash. The key is sound, the format, the hash and the signing do not panic, and the
    -- format reads back what it writes.
    pub new-Ensures_sign1 :
        CborLaws c
        → (payload : Bytes) (unprotected : HeaderMap V) (k : K)
        → Ensures
            (λ m. (k' : K) → (get_payload c h m (some key.public_key) k').0 ≡ ok payload)
            (IsNotSigned payload k)
            (new c h key payload unprotected k).0
    new-Ensures_sign1 L payload unprotected k =
        Ensures-of_Total (new-Total payload unprotected k)
          (λ m e k'.
            let g = new-IsSigned c h key S payload unprotected k m e in
            (get_payload_iff c h m key.public_key k' payload).1
              (verify_signature-new c h key S L payload unprotected k k' m e, sym g.payload_kept))
          (new-IsNotSigned payload unprotected k)
