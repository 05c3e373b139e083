-- ===== src/Sign/Signing/Outcomes.antt =====
-- Every way in which `verify_signature` of src/sign.rs may end.
use aws_nitro_enclaves_cose.Prelude.{
  pos, sym, Bytes, Bool, false, ◌≡◌, ◌↔◌, ◌⊎◌, inl, inr, refl, ◌∙◌, ap, Bool-cases, Option-cases,
}
use aws_nitro_enclaves_cose.Outcome.{Outcome, ok, err, panic, map_err-eq-ok}
use aws_nitro_enclaves_cose.Outcome.Ensures.{
  Ensures, Total, returns, throws, resume-elim, Ensures-bind, Ensures-map_err, Ensures-not_panic,
}
use aws_nitro_enclaves_cose.Error.{
  CoseError, serialization_error, specification_error, signature_error, cose,
}
use aws_nitro_enclaves_cose.Serde.{Cbor}
use aws_nitro_enclaves_cose.Serde.Laws.{IsTotal}
use aws_nitro_enclaves_cose.Serde.Total.{View-cases}
use aws_nitro_enclaves_cose.HeaderMap
use aws_nitro_enclaves_cose.HeaderMap.{HeaderMap}
use aws_nitro_enclaves_cose.HeaderMap.Total.{from_bytes-Total}
use aws_nitro_enclaves_cose.Crypto.Algorithms.{SignatureAlgorithm, MessageDigest}
use aws_nitro_enclaves_cose.Crypto.Traits.{Hash, SigningPublicKey}
use aws_nitro_enclaves_cose.Sign.Structure
use aws_nitro_enclaves_cose.Sign.Message.{CoseSign1}
use aws_nitro_enclaves_cose.Sign.Signing.{algorithm_matches, verify_signature}
use aws_nitro_enclaves_cose.Sign.Signing.Verify.{
  IsReached, verify_signature_reached, algorithm_matches-eq-true, struct_digest-eq-ok,
}

-- An error of `verify_signature` before it asks the key to verify: of the key's parameters, of the
-- format, of the protected headers or of the hash.
pub data IsRefusal {X K : Type 0} (key : SigningPublicKey X K) (k : K) : CoseError X → Type 0 where
  of_key : {e : CoseError X} → (key.get_parameters k).0 ≡ err e → IsRefusal key k e
  of_format : {x : X} → IsRefusal key k (serialization_error x)
  of_header : {s : _} → IsRefusal key k (specification_error s)
  of_hash : {e : CoseError X} → IsRefusal key k (signature_error (cose e))

module _ {X V K : Type 0} (c : Cbor X V) (T : IsTotal c) (h : Hash X)
    (hash_total : (a : MessageDigest) (b : Bytes) → Total (h.hash a b)) (key : SigningPublicKey X K)
    (parameters_total : (k : K) → Total (key.get_parameters k).0) where
  algorithm_matches-Ensures :
      (k : K) (header : HeaderMap V) (a : SignatureAlgorithm)
      → Ensures (λ _. Unit {0}) (IsRefusal key k) (algorithm_matches c header a)
  unfolding algorithm_matches
  algorithm_matches-Ensures k header a =
      elim (Option-cases (HeaderMap.get c (c.of_integer (pos 1)) header)) [
        | inl absent ↦ rw (algorithm_matches, absent) (throws of_header)
        | inr (v, found) ↦ elim (View-cases (c.view v)) [
          | inl (z, e) ↦ rw (algorithm_matches, found, e) (returns tt)
          | inr (inl (b, e)) ↦ rw (algorithm_matches, found, e) (throws of_header)
          | inr (inr e) ↦ rw (algorithm_matches, found, e) (throws of_header)
        ]
      ]

  struct_digest-Ensures :
      (k : K) (d : MessageDigest) (protected payload : Bytes)
      → Ensures (λ _. Unit {0}) (IsRefusal key k) (Structure.struct_digest c h d protected payload)
  unfolding Structure.struct_digest Structure.new_sign1 Structure.as_bytes
  struct_digest-Ensures k d protected payload =
      Ensures-bind (Ensures-map_err serialization_error (T.to_vec-Total _) (λ x q. of_format))
        (λ e q. q)
        λ b r _. Ensures-map_err (λ e. signature_error (cose e)) (hash_total d b) (λ e q. of_hash)

  -- The answer `z` to a verification: the key's own, or a refusal.
  abbrev pub IsAnswer : CoseSign1 V → K → Outcome (CoseError X) Bool × K → Type 0
  IsAnswer m k z =
      ((r : IsReached c h m key k) × (z ≡ key.verify r.hashed m.signature r.after))
      ⊎ Ensures (λ b. b ≡ false) (IsRefusal key k) z.0

  -- `verify_signature` has two ways to end. Either the protected headers name the key's algorithm and
  -- the Sig_structure is hashed, and the answer, a panic included, is that of the key's `verify`; or
  -- it ends without a panic in false, or in an error of the key's parameters, the format, the
  -- headers or the hash. The format, the hash and the key's parameters do not panic.
  pub verify_signature_cases :
      (m : CoseSign1 V) (k : K)
      → ((r : IsReached c h m key k) × (verify_signature c h m key k
            ≡ key.verify r.hashed m.signature r.after))
        ⊎ Ensures (λ b. b ≡ false) (IsRefusal key k) (verify_signature c h m key k).0
  unfolding verify_signature
  verify_signature_cases m k =
      let after = (key.get_parameters k).1 in
      resume-elim (IsAnswer m k) _ after (parameters_total k)
        (λ (a, d) p _.
          resume-elim (IsAnswer m k) _ after
            (Ensures-map_err {Q' = IsRefusal key k} serialization_error
              (from_bytes-Total c T m.protected) (λ x q. of_format))
            (λ header r _.
              resume-elim (IsAnswer m k) _ after (algorithm_matches-Ensures k header a)
                (λ matches t _. elim (Bool-cases matches) [
                  | inr differs ↦ rw differs (inr (returns refl))
                  | inl same ↦ rw same (
                      resume-elim (IsAnswer m k) _ after
                        (struct_digest-Ensures k d m.protected m.payload)
                        (λ hashed s _.
                          let (value, found, view) =
                            algorithm_matches-eq-true c header a (t ∙ ap ok same) in
                          let (structure, written, hash_is) =
                            struct_digest-eq-ok c h d m.protected m.payload s in
                          inl (
                            record {
                              alg = a;
                              digest = d;
                              after = after;
                              parameters = λ i. (p i, after);
                              header = header;
                              header_read = map_err-eq-ok _ _ r;
                              value = value;
                              value_found = found;
                              value_view = view;
                              structure = structure;
                              structure_written = written;
                              hashed = hashed;
                              hashed_structure = hash_is;
                            },
                            refl,
                          ))
                        (λ e s q. inr (throws q)))
                ])
                (λ e t q. inr (throws q)))
            (λ e r q. inr (throws q)))
        (λ e p q. inr (throws (of_key p)))

  -- `verify_signature` panics exactly where the key's own `verify` does, on a message that gets that
  -- far: the protected headers name the key's algorithm and the Sig_structure is hashed. The format,
  -- the hash and the key's parameters do not panic.
  pub verify_signature_panic_iff :
      (m : CoseSign1 V) (k : K)
      → ((verify_signature c h m key k).0 ≡ panic)
        ↔ ((r : IsReached c h m key k) × ((key.verify r.hashed m.signature r.after).0 ≡ panic))
  verify_signature_panic_iff m k = (
    λ e. elim (verify_signature_cases m k) [
      | inl (r, answer) ↦ (r, ap (λ (z : Outcome (CoseError X) Bool × K). z.0) (sym answer) ∙ e)
      | inr refused ↦ absurd (Ensures-not_panic refused e)
    ],
    λ (r, e).
        ap (λ (z : Outcome (CoseError X) Bool × K). z.0) (verify_signature_reached c h m key k r)
        ∙ e,
  )
