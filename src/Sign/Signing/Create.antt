-- ===== src/Sign/Signing/Create.antt =====
-- What `new` and `new_with_protected` of src/sign.rs make, and that it verifies.
use aws_nitro_enclaves_cose.Prelude.{pos, Bytes, true, ◌≡◌, refl, some, [], ◌∷◌}
use mathlib.Core.Path.{subst}
use aws_nitro_enclaves_cose.OrderedMap
use aws_nitro_enclaves_cose.Outcome.{ok, map_err, map_err-eq-ok, ok-injective}
use aws_nitro_enclaves_cose.Call.{lift, bind-elim}
use aws_nitro_enclaves_cose.Error.{serialization_error}
use aws_nitro_enclaves_cose.OrderedMap.Order.{IsSorted}
use aws_nitro_enclaves_cose.Serde.{Cbor, integer, entries}
use aws_nitro_enclaves_cose.Serde.Laws.{CborLaws}
use aws_nitro_enclaves_cose.HeaderMap
use aws_nitro_enclaves_cose.HeaderMap.{HeaderMap}
use aws_nitro_enclaves_cose.HeaderMap.RoundTrip.{
  get-insert, is_empty_of_get, from_bytes-map_to_empty_or_serialized,
}
use aws_nitro_enclaves_cose.Crypto.Algorithms.{discriminant}
use aws_nitro_enclaves_cose.Crypto.Traits.Contracts.{IsSound, IsReader, public_key-IsReader}
use aws_nitro_enclaves_cose.Crypto.Traits.{Hash, SigningPublicKey, SigningPrivateKey}
use aws_nitro_enclaves_cose.Sign.Structure
use aws_nitro_enclaves_cose.Sign.Message.{CoseSign1}
use aws_nitro_enclaves_cose.Sign.Signing.{new, new_with_protected, verify_signature}
use aws_nitro_enclaves_cose.Sign.Signing.Verify.{
  IsAccepted, verify_signature_of, struct_digest-eq-ok, struct_digest_of, sig_structure,
}

module _ {X V K : Type 0} (c : Cbor X V) (h : Hash X) (key : SigningPrivateKey X K)
    (S : IsSound key) where
  -- How a message came about.
  pub record IsSigned (payload : Bytes) (protected unprotected : HeaderMap V) (k : K)
      (m : CoseSign1 V) : Type 0 where
    pub payload_kept : m.payload ≡ payload
    pub unprotected_kept : m.unprotected ≡ unprotected
    pub protected_written : HeaderMap.map_to_empty_or_serialized c protected ≡ ok m.protected
    pub structure : Bytes
    pub structure_written : c.to_vec (sig_structure m.protected m.payload) ≡ ok structure
    pub hashed : Bytes
    pub hashed_structure : h.hash S.digest structure ≡ ok hashed
    pub signed : (key.sign hashed k).0 ≡ ok m.signature

  -- A message that `new_with_protected` gives with a sound key keeps the payload and the unprotected
  -- map, has the protected map written as it is, and has the key's signature of the hash of the
  -- Sig_structure over its protected bytes and payload.
  pub new_with_protected-IsSigned :
      (payload : Bytes) (protected unprotected : HeaderMap V) (k : K) (m : CoseSign1 V)
      → (new_with_protected c h key payload protected unprotected k).0 ≡ ok m
      → IsSigned payload protected unprotected k m
  unfolding new_with_protected
  new_with_protected-IsSigned payload protected unprotected k m e =
      bind-elim
        (lift (map_err serialization_error (HeaderMap.map_to_empty_or_serialized c protected))) _ k
        (rw (S.get_parameters-eq k) at e)
        λ b r e₁. bind-elim (lift (Structure.struct_digest c h S.digest b payload)) _ k e₁ λ d s e₂.
          bind-elim (key.sign d) _ k e₂ λ g t e₃.
            let (structure, written, hash_is) = struct_digest-eq-ok c h S.digest b payload s in
            subst (IsSigned payload protected unprotected k) (ok-injective e₃) (record {
              payload_kept = refl;
              unprotected_kept = refl;
              protected_written = map_err-eq-ok _ _ r;
              structure = structure;
              structure_written = written;
              hashed = d;
              hashed_structure = hash_is;
              signed = t;
            })

  -- A signed message is accepted by every reader of the key, where its protected bytes hold a header
  -- map that names the key's algorithm.
  pub IsAccepted-of_signed :
      {K' : Type 0} (reader : SigningPublicKey X K') (R : IsReader key S reader) (payload : Bytes)
      (protected unprotected header : HeaderMap V) (k : K) (k' : K') (m : CoseSign1 V) (v : V)
      → IsSigned payload protected unprotected k m
      → HeaderMap.from_bytes c m.protected ≡ ok header
      → HeaderMap.get c (c.of_integer (pos 1)) header ≡ some v
      → c.view v ≡ integer (discriminant S.algorithm)
      → IsAccepted c h m reader k'
  IsAccepted-of_signed reader R payload protected unprotected header k k' m v g read found view =
      record {
        reached = record {
          alg = S.algorithm;
          digest = S.digest;
          after = k';
          parameters = R.reader_parameters k';
          header = header;
          header_read = read;
          value = v;
          value_found = found;
          value_view = view;
          structure = g.structure;
          structure_written = g.structure_written;
          hashed = g.hashed;
          hashed_structure = g.hashed_structure;
        };
        accepted = R.reader_verify-sign g.hashed m.signature k k' g.signed;
      }

  IsAccepted-new_with_protected :
      {K' : Type 0} (reader : SigningPublicKey X K') (R : IsReader key S reader)
      → CborLaws c
      → (payload : Bytes) (protected unprotected : HeaderMap V) (k : K) (k' : K') (m : CoseSign1 V)
        (v : V)
      → IsSorted c.cmp protected
      → HeaderMap.get c (c.of_integer (pos 1)) protected ≡ some v
      → c.view v ≡ integer (discriminant S.algorithm)
      → (new_with_protected c h key payload protected unprotected k).0 ≡ ok m
      → IsAccepted c h m reader k'
  IsAccepted-new_with_protected reader R L payload protected unprotected k k' m v sorted found view
        e =
      let g = new_with_protected-IsSigned payload protected unprotected k m e in
      IsAccepted-of_signed reader R payload protected unprotected protected k k' m v g
        (from_bytes-map_to_empty_or_serialized c L protected m.protected sorted
          (is_empty_of_get c (c.of_integer (pos 1)) protected found) g.protected_written)
        found view

  -- Signed with a sound key over a protected map that names the key's algorithm, a message verifies
  -- under the key, at any later time. The map is well formed and the format reads back what it writes.
  pub verify_signature-new_with_protected :
      CborLaws c
      → (payload : Bytes) (protected unprotected : HeaderMap V) (k k' : K) (m : CoseSign1 V) (v : V)
      → IsSorted c.cmp protected
      → HeaderMap.get c (c.of_integer (pos 1)) protected ≡ some v
      → c.view v ≡ integer (discriminant S.algorithm)
      → (new_with_protected c h key payload protected unprotected k).0 ≡ ok m
      → (verify_signature c h m key.public_key k').0 ≡ ok true
  verify_signature-new_with_protected L payload protected unprotected k k' m v sorted found view e =
      verify_signature_of c h m key.public_key k' (
        IsAccepted-new_with_protected key.public_key (public_key-IsReader key S) L payload protected
          unprotected k k' m v sorted found view e)

  -- The protected map of `new`.
  abbrev pub algorithm_map : HeaderMap V
  algorithm_map =
      (HeaderMap.insert c (c.of_integer (pos 1)) (c.of_integer (discriminant S.algorithm))
        HeaderMap.new).1

  pub new-eq :
      (payload : Bytes) (unprotected : HeaderMap V) (k : K)
      → new c h key payload unprotected k
        ≡ new_with_protected c h key payload algorithm_map unprotected k
  unfolding new
  new-eq payload unprotected k = rw (S.get_parameters-eq k)

  -- What `new` makes is signed over the map that names the key's algorithm.
  pub new-IsSigned :
      (payload : Bytes) (unprotected : HeaderMap V) (k : K) (m : CoseSign1 V)
      → (new c h key payload unprotected k).0 ≡ ok m
      → IsSigned payload algorithm_map unprotected k m
  new-IsSigned payload unprotected k m e =
      new_with_protected-IsSigned payload algorithm_map unprotected k m
        (rw (new-eq payload unprotected k) at e)

  pub algorithm_map-IsSorted : IsSorted c.cmp algorithm_map
  unfolding HeaderMap.insert OrderedMap.insert
  algorithm_map-IsSorted = (tt, tt)

  -- Whatever `new` makes is accepted by every reader of the key, at any later time.
  pub IsAccepted-new :
      {K' : Type 0} (reader : SigningPublicKey X K') (R : IsReader key S reader)
      → CborLaws c
      → (payload : Bytes) (unprotected : HeaderMap V) (k : K) (k' : K') (m : CoseSign1 V)
      → (new c h key payload unprotected k).0 ≡ ok m
      → IsAccepted c h m reader k'
  IsAccepted-new reader R L payload unprotected k k' m e =
      IsAccepted-new_with_protected reader R L payload algorithm_map unprotected k k' m
        (c.of_integer (discriminant S.algorithm)) algorithm_map-IsSorted
        (get-insert c L (c.of_integer (pos 1)) (c.of_integer (discriminant S.algorithm))
          HeaderMap.new)
        (L.view-of_integer (discriminant S.algorithm)) (rw (new-eq payload unprotected k) at e)

  -- So it verifies under the key that it was made with.
  pub verify_signature-new :
      CborLaws c
      → (payload : Bytes) (unprotected : HeaderMap V) (k k' : K) (m : CoseSign1 V)
      → (new c h key payload unprotected k).0 ≡ ok m
      → (verify_signature c h m key.public_key k').0 ≡ ok true
  verify_signature-new L payload unprotected k k' m e =
      verify_signature_of c h m key.public_key k'
        (IsAccepted-new key.public_key (public_key-IsReader key S) L payload unprotected k k' m e)

  -- With a sound key, if the map that names its algorithm is written as `protected_bytes`, the
  -- Sig_structure over these and the payload is written and hashed, and the key signs the hash, then
  -- `new` gives the message of the protected bytes, the unprotected map, the payload and the
  -- signature, and leaves the key in the state after the signing.
  pub new_lem :
      (payload : Bytes) (unprotected : HeaderMap V) (k k' : K)
      (protected_bytes structure hashed s : Bytes)
      → c.to_vec (entries ((c.of_integer (pos 1), c.of_integer (discriminant S.algorithm)) ∷ []))
        ≡ ok protected_bytes
      → c.to_vec (sig_structure protected_bytes payload) ≡ ok structure
      → h.hash S.digest structure ≡ ok hashed
      → key.sign hashed k ≡ (ok s, k')
      → new c h key payload unprotected k ≡ (
        ok record {
          protected = protected_bytes;
          unprotected = unprotected;
          payload = payload;
          signature = s;
        },
        k',
      )
  unfolding new_with_protected HeaderMap.map_to_empty_or_serialized HeaderMap.is_empty
      OrderedMap.is_empty HeaderMap.insert OrderedMap.insert
  new_lem payload unprotected k k' protected_bytes structure hashed s w g d t = rw (
    new-eq payload unprotected k,
    S.get_parameters-eq k,
    w,
    struct_digest_of c h S.digest protected_bytes payload structure hashed g d,
    t,
  )
