-- ===== src/Crypto/Kms/Local.antt =====
-- A KMS key with its public key at hand: the service signs, and OpenSSL verifies.
use aws_nitro_enclaves_cose.Prelude.{◌≤◌, Bytes, true, some, ◌≡◌, refl, ◌∙◌, sym, ◌++◌, length}
use aws_nitro_enclaves_cose.Outcome.{ok, ok-injective}
use aws_nitro_enclaves_cose.Crypto.Algorithms.{key_length, suggested_message_digest}
use aws_nitro_enclaves_cose.Crypto.Traits.Contracts.{IsSound, IsReader}
use aws_nitro_enclaves_cose.Crypto.Signature.Layout.{
  pad, length-pad, big_endian-pad, merge_ec_signature_lem, split_at-append,
}
use aws_nitro_enclaves_cose.Crypto.Openssl.Library.{Nid, EllipticCurves, EllipticCurvesLaws}
use aws_nitro_enclaves_cose.Crypto.OpensslPkey.{curve_algorithm, ec_curve_to_parameters, curve_of}
use aws_nitro_enclaves_cose.Crypto.OpensslPkey
use aws_nitro_enclaves_cose.Crypto.Kms.{
  KmsKey, get_sig_alg_spec, get_parameters, verify, sign, private_key,
}
use aws_nitro_enclaves_cose.Crypto.Kms.Branches.{verify_locally}
use aws_nitro_enclaves_cose.Crypto.Kms.Requests.{Service}
use aws_nitro_enclaves_cose.Crypto.Kms.Sound.{sign-eq-ok}

-- The public key `public` is that of `k`: it is on the curve of the key's algorithm, and what the
-- service signs has numbers that fit and is a signature of this public key.
pub record IsLocal {X S W PKey EcKey EcdsaSig : Type 0}
    (lib : EllipticCurves X W PKey EcKey EcdsaSig) (client : Service X S) (k : KmsKey PKey)
    (public : PKey) : Type 0 where
  pub key : EcKey
  pub curve : Nid
  pub ec_key-eq : lib.ec_key public ≡ ok key
  pub curve_name-eq : lib.curve_name key ≡ some curve
  pub curve_algorithm-eq : curve_algorithm {X = X} lib.debug curve ≡ ok k.sig_alg
  pub sig_r_fits :
      (d b : Bytes) (s : S) (g : EcdsaSig)
      → (client.sign k.key_id d (get_sig_alg_spec lib client k) s).0 ≡ ok (some b)
      → lib.from_der b ≡ ok g
      → length (lib.bn_to_vec (lib.sig_r g)) ≤ key_length k.sig_alg
  pub sig_s_fits :
      (d b : Bytes) (s : S) (g : EcdsaSig)
      → (client.sign k.key_id d (get_sig_alg_spec lib client k) s).0 ≡ ok (some b)
      → lib.from_der b ≡ ok g
      → length (lib.bn_to_vec (lib.sig_s g)) ≤ key_length k.sig_alg
  pub ecdsa_verify-sign :
      (d b : Bytes) (s : S) (g : EcdsaSig)
      → (client.sign k.key_id d (get_sig_alg_spec lib client k) s).0 ≡ ok (some b)
      → lib.from_der b ≡ ok g
      → lib.ecdsa_verify g d key ≡ ok true

module _ {X S W PKey EcKey EcdsaSig : Type 0} (lib : EllipticCurves X W PKey EcKey EcdsaSig)
    (client : Service X S) (L : EllipticCurvesLaws lib) (k : KmsKey PKey) (public : PKey)
    (u : IsLocal lib client k public) (at_hand : k.public_key ≡ some public) where
  verify-pad :
      (d : Bytes) (g : EcdsaSig)
      → length (lib.bn_to_vec (lib.sig_r g)) ≤ key_length k.sig_alg
      → lib.ecdsa_verify g d u.key ≡ ok true
      → OpensslPkey.verify lib public d (
          pad (key_length k.sig_alg) (lib.bn_to_vec (lib.sig_r g))
          ++ pad (key_length k.sig_alg) (lib.bn_to_vec (lib.sig_s g)))
        ≡ ok true
  unfolding OpensslPkey.verify curve_of ec_curve_to_parameters
  verify-pad d g fits accepted =
      let n = key_length k.sig_alg in
      let r = lib.bn_to_vec (lib.sig_r g) in
      let q = lib.bn_to_vec (lib.sig_s g) in
      rw (
        u.ec_key-eq,
        u.curve_name-eq,
        u.curve_algorithm-eq,
        split_at-append n (pad n r) (pad n q) (length-pad n r fits),
        L.bn_from_slice-eq (pad n r),
        L.bn_from_slice-eq (pad n q),
        big_endian-pad n r,
        big_endian-pad n q,
        L.big_endian-bn_to_vec (lib.sig_r g),
        L.big_endian-bn_to_vec (lib.sig_s g),
        L.from_private_components-eq g,
        accepted,
      )

  pub verify-sign :
      (d raw : Bytes) (s s' : S)
      → (sign lib client k d s).0 ≡ ok raw
      → (verify lib client k d raw s').0 ≡ ok true
  verify-sign d raw s s' e =
      let (b, g, t, f, m) = sign-eq-ok lib client L k d raw s e in
      let r = lib.bn_to_vec (lib.sig_r g) in
      let q = lib.bn_to_vec (lib.sig_s g) in
      let fits = u.sig_r_fits d b s g t f in
      let raw_is = ok-injective (
        sym m
        ∙ merge_ec_signature_lem r q (key_length k.sig_alg) fits (u.sig_s_fits d b s g t f)) in
      rw (verify_locally lib client k d raw s' public at_hand, raw_is)
        (verify-pad d g fits (u.ecdsa_verify-sign d b s g t f))

  pub get_parameters-eq :
      (s : S) → get_parameters lib client k ≡ ok (k.sig_alg, suggested_message_digest k.sig_alg)
  unfolding get_parameters
  get_parameters-eq s = refl

  abbrev pub soundness : IsSound (private_key lib client k)
  soundness = record {
    algorithm = k.sig_alg;
    digest = suggested_message_digest k.sig_alg;
    get_parameters-eq = λ s. rw (get_parameters-eq s);
    verify-sign = verify-sign;
  }

  -- A KMS key is a sound signing key also when it verifies by itself, with the service's public key
  -- at hand: what the service signs, OpenSSL accepts in its raw form. The public key is on the curve
  -- of the key's algorithm and its ECDSA accepts the service's signatures.
  pub private_key_local-IsSound : IsSound (private_key lib client k)
  private_key_local-IsSound = soundness

  public_key_parameters :
      OpensslPkey.get_parameters lib public ≡ ok (k.sig_alg, suggested_message_digest k.sig_alg)
  unfolding OpensslPkey.get_parameters curve_of ec_curve_to_parameters
  public_key_parameters = rw (u.ec_key-eq, u.curve_name-eq, u.curve_algorithm-eq)

  -- Whoever has just the public key in OpenSSL reads what the service signed.
  pub public_key_openssl-IsReader :
      IsReader (private_key lib client k) soundness (OpensslPkey.public_key lib public)
  public_key_openssl-IsReader = record {
    reader_parameters = λ w. rw public_key_parameters;
    reader_verify-sign = λ d raw s w e.
        rw (verify_locally lib client k d raw s public at_hand) at (verify-sign d raw s s e);
  }
