-- ===== src/Sign/Signing/Rejected.antt =====
-- Where `verify_signature` of src/sign.rs stops before it asks the key to verify.
use aws_nitro_enclaves_cose.Prelude.{
  ℤ, pos, eqb_iff, Bytes, false, ◌≡◌, ◌≢◌, sym, ◌∙◌, some, none, arith, [],
}
use aws_nitro_enclaves_cose.Outcome.{ok, err, ok-injective}
use aws_nitro_enclaves_cose.Error.{CoseError, serialization_error, specification_error}
use aws_nitro_enclaves_cose.OrderedMap.Order.{IsSorted}
use aws_nitro_enclaves_cose.Serde.{Cbor, integer}
use aws_nitro_enclaves_cose.Serde.Laws.{CborLaws}
use aws_nitro_enclaves_cose.HeaderMap
use aws_nitro_enclaves_cose.HeaderMap.{HeaderMap}
use aws_nitro_enclaves_cose.HeaderMap.RoundTrip.{
  from_bytes-map_to_empty_or_serialized, from_bytes_empty, get-insert, is_empty_of_get,
}
use aws_nitro_enclaves_cose.Crypto.Algorithms.{SignatureAlgorithm, MessageDigest, discriminant}
use aws_nitro_enclaves_cose.Crypto.Algorithms.Laws.{discriminant-injective}
use aws_nitro_enclaves_cose.Crypto.Traits.Contracts.{IsSound}
use aws_nitro_enclaves_cose.Crypto.Traits.{Hash, SigningPublicKey, SigningPrivateKey}
use aws_nitro_enclaves_cose.Sign.Message.{CoseSign1}
use aws_nitro_enclaves_cose.Sign.Signing.{
  algorithm_matches, new, new_with_protected, verify_signature,
}
use aws_nitro_enclaves_cose.Sign.Signing.Verify.{integer_of}
use aws_nitro_enclaves_cose.Sign.Signing.Create.{
  new_with_protected-IsSigned, new-IsSigned, algorithm_map, algorithm_map-IsSorted,
}

abbrev pub no_algorithm : {X : Type 0} → CoseError X
no_algorithm =
    specification_error
      "Protected Header does not contain a valid Signature Algorithm specification"

abbrev pub invalid_algorithm : {X : Type 0} → CoseError X
invalid_algorithm =
    specification_error "Protected Header contains invalid Signature Algorithm specification"

module _ {X V : Type 0} (c : Cbor X V) (header : HeaderMap V) (a : SignatureAlgorithm) where
  mismatch :
      (v : V) (z : ℤ)
      → HeaderMap.get c (c.of_integer (pos 1)) header ≡ some v
      → c.view v ≡ integer z
      → z ≢ discriminant a
      → algorithm_matches c header a ≡ ok false
  unfolding algorithm_matches
  mismatch v z found view n = ground (arith, eqb_iff z (discriminant a))

  not_integer :
      (v : V)
      → HeaderMap.get c (c.of_integer (pos 1)) header ≡ some v
      → ((z : ℤ) → c.view v ≢ integer z)
      → algorithm_matches c header a ≡ err invalid_algorithm
  unfolding algorithm_matches
  not_integer v found n = ground (arith, n (integer_of (c.view v)))

  no_alg :
      HeaderMap.get c (c.of_integer (pos 1)) header ≡ none
      → algorithm_matches c header a ≡ err no_algorithm
  unfolding algorithm_matches
  no_alg absent = ground arith

module _ {X V K : Type 0} (c : Cbor X V) (h : Hash X) (m : CoseSign1 V)
    (key : SigningPublicKey X K) where
  -- Is the `alg` of the header an integer other than the key's, the answer is false, and the key is
  -- not asked to verify: its state is that after `get_parameters`.
  pub verify_signature_other_alg :
      (k after : K) (a : SignatureAlgorithm) (d : MessageDigest) (header : HeaderMap V) (v : V)
      (z : ℤ)
      → key.get_parameters k ≡ (ok (a, d), after)
      → HeaderMap.from_bytes c m.protected ≡ ok header
      → HeaderMap.get c (c.of_integer (pos 1)) header ≡ some v
      → c.view v ≡ integer z
      → z ≢ discriminant a
      → verify_signature c h m key k ≡ (ok false, after)
  unfolding verify_signature
  verify_signature_other_alg k after a d header v z p r found view n =
      rw (p, r, mismatch c header a v z found view n)

  -- Is the `alg` of the header no integer, it is a specification error, and the key is not asked to
  -- verify.
  pub verify_signature_not_integer :
      (k after : K) (a : SignatureAlgorithm) (d : MessageDigest) (header : HeaderMap V) (v : V)
      → key.get_parameters k ≡ (ok (a, d), after)
      → HeaderMap.from_bytes c m.protected ≡ ok header
      → HeaderMap.get c (c.of_integer (pos 1)) header ≡ some v
      → ((z : ℤ) → c.view v ≢ integer z)
      → verify_signature c h m key k ≡ (err invalid_algorithm, after)
  unfolding verify_signature
  verify_signature_not_integer k after a d header v p r found view =
      rw (p, r, not_integer c header a v found view)

  -- Has the header no `alg`, it is a specification error, and the key is not asked to verify.
  pub verify_signature_no_alg :
      (k after : K) (a : SignatureAlgorithm) (d : MessageDigest) (header : HeaderMap V)
      → key.get_parameters k ≡ (ok (a, d), after)
      → HeaderMap.from_bytes c m.protected ≡ ok header
      → HeaderMap.get c (c.of_integer (pos 1)) header ≡ none
      → verify_signature c h m key k ≡ (err no_algorithm, after)
  unfolding verify_signature
  verify_signature_no_alg k after a d header p r absent = rw (p, r, no_alg c header a absent)

  -- Protected bytes that are no header map are a serialization error.
  pub verify_signature_unreadable :
      (k after : K) (a : SignatureAlgorithm) (d : MessageDigest) (x : X)
      → key.get_parameters k ≡ (ok (a, d), after)
      → HeaderMap.from_bytes c m.protected ≡ err x
      → verify_signature c h m key k ≡ (err (serialization_error x), after)
  unfolding verify_signature
  verify_signature_unreadable k after a d x p r = rw (p, r)

module _ {X V K : Type 0} (c : Cbor X V) (L : CborLaws c) (h : Hash X) (key : SigningPrivateKey X K)
    (S : IsSound key) where
  -- `new_with_protected` does not set the algorithm: over a well-formed map that has an entry, but none
  -- for `alg`, a sound key gives a message that it refuses itself with a specification error.
  pub verify_signature-new_with_protected_no_alg :
      (payload : Bytes) (protected unprotected : HeaderMap V) (k k' : K) (m : CoseSign1 V)
      → IsSorted c.cmp protected
      → HeaderMap.is_empty protected ≡ false
      → HeaderMap.get c (c.of_integer (pos 1)) protected ≡ none
      → (new_with_protected c h key payload protected unprotected k).0 ≡ ok m
      → verify_signature c h m key.public_key k' ≡ (err no_algorithm, k')
  verify_signature-new_with_protected_no_alg payload protected unprotected k k' m sorted full absent
        e =
      let g = new_with_protected-IsSigned c h key S payload protected unprotected k m e in
      let read =
        from_bytes-map_to_empty_or_serialized c L protected m.protected sorted full
          g.protected_written in
      verify_signature_no_alg c h m key.public_key k' k' S.algorithm S.digest protected
        (S.get_parameters-eq k') read absent

  -- Over the empty map `new_with_protected` of a sound key gives a message with no protected bytes,
  -- and the same key refuses it with a serialization error: no bytes are no header map.
  pub verify_signature-new_with_protected_empty :
      (payload : Bytes) (unprotected : HeaderMap V) (k k' : K) (m : CoseSign1 V)
      → (new_with_protected c h key payload HeaderMap.new unprotected k).0 ≡ ok m
      → (m.protected ≡ [])
        × ((x : X) × (verify_signature c h m key.public_key k' ≡ (err (serialization_error x), k')))
  verify_signature-new_with_protected_empty payload unprotected k k' m e =
      let g = new_with_protected-IsSigned c h key S payload HeaderMap.new unprotected k m e in
      let (written, (x, unreadable)) = from_bytes_empty c L in
      let nothing : m.protected ≡ [] = ok-injective (sym g.protected_written ∙ written) in
      (
        nothing,
        (
          x,
          verify_signature_unreadable c h m key.public_key k' k' S.algorithm S.digest x
              (S.get_parameters-eq k') (rw nothing unreadable),
        ),
      )

  -- A message that `new` gives with a sound key is refused by a key of another algorithm with the
  -- answer false: the other key tells its parameters and is not asked to verify.
  pub verify_signature-new_other_algorithm :
      {K' : Type 0} (other_key : SigningPublicKey X K') (payload : Bytes)
      (unprotected : HeaderMap V) (k : K) (k' after : K') (a : SignatureAlgorithm)
      (d : MessageDigest) (m : CoseSign1 V)
      → other_key.get_parameters k' ≡ (ok (a, d), after)
      → S.algorithm ≢ a
      → (new c h key payload unprotected k).0 ≡ ok m
      → verify_signature c h m other_key k' ≡ (ok false, after)
  verify_signature-new_other_algorithm other_key payload unprotected k k' after a d m p differs e =
      let g = new-IsSigned c h key S payload unprotected k m e in
      let one = c.of_integer (pos 1) in
      let named = c.of_integer (discriminant S.algorithm) in
      let found = get-insert c L one named HeaderMap.new in
      let read =
        from_bytes-map_to_empty_or_serialized c L (algorithm_map c h key S) m.protected
          (algorithm_map-IsSorted c h key S) (is_empty_of_get c one (algorithm_map c h key S) found)
          g.protected_written in
      verify_signature_other_alg c h m other_key k' after a d (algorithm_map c h key S) named
        (discriminant S.algorithm) p read found (L.view-of_integer (discriminant S.algorithm))
        (λ same. differs (discriminant-injective S.algorithm a same))
