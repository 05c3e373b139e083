-- ===== src/Sign/Signing/Verify.antt =====
-- What `verify_signature` of src/sign.rs accepts, against the rule of RFC 8152, section 4.4.
use aws_nitro_enclaves_cose.Prelude.{
  ℤ, pos, eqb_iff, Bytes, Bool, true, false, ◌≡◌, ◌↔◌, refl, ◌∙◌, some, ap, arith, codes, [],
  if◌then◌else◌, Option-cases, inl, inr,
}
use aws_nitro_enclaves_cose.Outcome.{Outcome, ok, err, map_err, map_err-eq-ok}
use aws_nitro_enclaves_cose.Outcome
use aws_nitro_enclaves_cose.Call.{Call, lift, >>=-eq-ok}
use aws_nitro_enclaves_cose.Error.{CoseError, serialization_error}
use aws_nitro_enclaves_cose.Serde.{Cbor, Item, View, integer, bytes, str, seq, nil, cons}
use aws_nitro_enclaves_cose.HeaderMap
use aws_nitro_enclaves_cose.HeaderMap.{HeaderMap}
use aws_nitro_enclaves_cose.Crypto.Algorithms.{SignatureAlgorithm, MessageDigest, discriminant}
use aws_nitro_enclaves_cose.Crypto.Traits.{Hash, SigningPublicKey}
use aws_nitro_enclaves_cose.Sign.Structure
use aws_nitro_enclaves_cose.Sign.Message.{CoseSign1}
use aws_nitro_enclaves_cose.Sign.Signing.{algorithm_matches, verify_signature}

-- The Sig_structure of RFC 8152 for a COSE_Sign1: the context, the protected bytes, no external
-- data, and the payload.
abbrev pub sig_structure : {V : Type 0} → Bytes → Bytes → Item V
sig_structure protected payload = seq (
    cons (str (codes "Signature1"))
      (cons (bytes protected) (cons (bytes []) (cons (bytes payload) nil))))

pub sig_structure-injective :
    {V : Type 0} (p q x y : Bytes)
    → sig_structure {V = V} p x ≡ sig_structure q y
    → (p ≡ q) × (x ≡ y)
sig_structure-injective p q x y e = (cc, cc)

module _ {X V : Type 0} (c : Cbor X V) (h : Hash X) where
  -- The digest of the Sig_structure.
  pub struct_digest-eq-ok :
      (d : MessageDigest) (protected payload : Bytes) {b : Bytes}
      → Structure.struct_digest c h d protected payload ≡ ok b
      → (s : Bytes) × (c.to_vec (sig_structure protected payload) ≡ ok s) × (h.hash d s ≡ ok b)
  unfolding Structure.struct_digest Structure.new_sign1 Structure.as_bytes Structure.serialize
  struct_digest-eq-ok d protected payload e =
      let (s, r, g) =
        Outcome.>>=-eq-ok (map_err serialization_error (c.to_vec (sig_structure protected payload)))
          _ e in
      (s, map_err-eq-ok _ _ r, map_err-eq-ok _ _ g)

  pub struct_digest_of :
      (d : MessageDigest) (protected payload s b : Bytes)
      → c.to_vec (sig_structure protected payload) ≡ ok s
      → h.hash d s ≡ ok b
      → Structure.struct_digest c h d protected payload ≡ ok b
  unfolding Structure.struct_digest Structure.new_sign1 Structure.as_bytes Structure.serialize
  struct_digest_of d protected payload s b r g = rw (r, g)

-- The integer of a view, or any other.
abbrev pub integer_of : View → ℤ
integer_of (integer z) = z
integer_of _ = pos 0

module _ {X V : Type 0} (c : Cbor X V) where
  pub algorithm_matches-eq-true :
      (header : HeaderMap V) (a : SignatureAlgorithm)
      → algorithm_matches c header a ≡ ok true
      → (v : V) × (HeaderMap.get c (c.of_integer (pos 1)) header ≡ some v)
        × (c.view v ≡ integer (discriminant a))
  unfolding algorithm_matches
  algorithm_matches-eq-true header a e =
      elim (Option-cases (HeaderMap.get c (c.of_integer (pos 1)) header)) [
        | inl absent ↦ ground arith
        | inr (v, found) ↦
            (v, found, ground (arith, eqb_iff (integer_of (c.view v)) (discriminant a)))
      ]

  algorithm_matches_of :
      (header : HeaderMap V) (a : SignatureAlgorithm) (v : V)
      → HeaderMap.get c (c.of_integer (pos 1)) header ≡ some v
      → c.view v ≡ integer (discriminant a)
      → algorithm_matches c header a ≡ ok true
  unfolding algorithm_matches
  algorithm_matches_of header a v e g = ground (arith, eqb_iff (discriminant a) (discriminant a))

module _ {X V K : Type 0} (c : Cbor X V) (h : Hash X) where
  -- `verify_signature` gets to the key's own `verify`: the protected bytes are a header map whose
  -- `alg` is that of the key, and the Sig_structure is written and hashed.
  pub record IsReached (m : CoseSign1 V) (key : SigningPublicKey X K) (k : K) : Type 0 where
    pub alg : SignatureAlgorithm
    pub digest : MessageDigest
    pub after : K
    pub parameters : key.get_parameters k ≡ (ok (alg, digest), after)
    pub header : HeaderMap V
    pub header_read : HeaderMap.from_bytes c m.protected ≡ ok header
    pub value : V
    pub value_found : HeaderMap.get c (c.of_integer (pos 1)) header ≡ some value
    pub value_view : c.view value ≡ integer (discriminant alg)
    pub structure : Bytes
    pub structure_written : c.to_vec (sig_structure m.protected m.payload) ≡ ok structure
    pub hashed : Bytes
    pub hashed_structure : h.hash digest structure ≡ ok hashed

  -- It does, and the key accepts the signature.
  pub record IsAccepted (m : CoseSign1 V) (key : SigningPublicKey X K) (k : K) : Type 0 where
    pub reached : IsReached m key k
    pub open reached use *
    pub accepted : (key.verify hashed m.signature after).0 ≡ ok true

  Call-if :
      (b : Bool) (yes_branch : Call (CoseError X) K Bool) (k : K)
      → ((if b then yes_branch else lift (ok false)) k).0 ≡ ok true
      → (b ≡ true) × ((yes_branch k).0 ≡ ok true)
  Call-if true f k e = (refl, e)
  Call-if false f k e = cc

  -- Then the answer is the key's.
  pub verify_signature_reached :
      (m : CoseSign1 V) (key : SigningPublicKey X K) (k : K) (a : IsReached m key k)
      → verify_signature c h m key k ≡ key.verify a.hashed m.signature a.after
  unfolding verify_signature
  verify_signature_reached m key k a = rw (
    a.parameters,
    a.header_read,
    algorithm_matches_of c a.header a.alg a.value a.value_found a.value_view,
    struct_digest_of c h a.digest m.protected m.payload a.structure a.hashed a.structure_written
        a.hashed_structure,
  )

  -- From an accepted message `verify_signature` gives true.
  pub verify_signature_of :
      (m : CoseSign1 V) (key : SigningPublicKey X K) (k : K)
      → IsAccepted m key k
      → (verify_signature c h m key k).0 ≡ ok true
  verify_signature_of m key k a = rw (verify_signature_reached m key k a.reached) a.accepted

  IsAccepted-of_verify :
      (m : CoseSign1 V) (key : SigningPublicKey X K) (k : K)
      → (verify_signature c h m key k).0 ≡ ok true
      → IsAccepted m key k
  unfolding verify_signature
  IsAccepted-of_verify m key k e =
      let ((a, d), p, e₁) = >>=-eq-ok key.get_parameters _ k e in
      let after = (key.get_parameters k).1 in
      let (header, r, e₂) =
        >>=-eq-ok (lift (map_err serialization_error (HeaderMap.from_bytes c m.protected))) _ after
          e₁ in
      let (is_expected, t, e₃) = >>=-eq-ok (lift (algorithm_matches c header a)) _ after e₂ in
      let (yes_expected, e₄) = Call-if is_expected _ after e₃ in
      let (hashed, s, e₅) =
        >>=-eq-ok (lift (Structure.struct_digest c h d m.protected m.payload)) _ after e₄ in
      let (value, found, view) = algorithm_matches-eq-true c header a (t ∙ ap ok yes_expected) in
      let (structure, written, hash_is) = struct_digest-eq-ok c h d m.protected m.payload s in
      record {
        reached = record {
          alg = a;
          digest = d;
          after = after;
          parameters = λ i. (p i, after);
          header = header;
          header_read = map_err-eq-ok _ _ r;
          value = value;
          value_found = found;
          value_view = view;
          structure = structure;
          structure_written = written;
          hashed = hashed;
          hashed_structure = hash_is;
        };
        accepted = e₅;
      }

  -- `verify_signature` gives true exactly for a message whose protected bytes hold a header map that
  -- names the key's algorithm, and whose signature the key accepts for the hash of the Sig_structure
  -- of RFC 8152, section 4.4, over the protected bytes and the payload.
  pub verify_signature_iff :
      (m : CoseSign1 V) (key : SigningPublicKey X K) (k : K)
      → ((verify_signature c h m key k).0 ≡ ok true) ↔ IsAccepted m key k
  verify_signature_iff m key k = (IsAccepted-of_verify m key k, verify_signature_of m key k)
