-- ===== src/Crypto/Kms/Created.antt =====
-- What `KmsKey::new_with_public_key` of src/crypto/kms.rs makes.
use aws_nitro_enclaves_cose.Prelude.{
  ℕ, String, Bytes, Option, none, some, ◌≡◌, ◌↔◌, ◌⊎◌, refl, sym, ◌∙◌, ap, arith,
}
use mathlib.Core.Path.{subst}
use aws_nitro_enclaves_cose.Outcome.{ok, map_err, map_err-eq-ok, ok_or, ok_or-eq-ok, ok-injective}
use aws_nitro_enclaves_cose.Outcome
use aws_nitro_enclaves_cose.Call.{call_err, state-elim, lift-elim, call_err-eq-ok, lift-eq-ok}
use aws_nitro_enclaves_cose.Error.{unsupported_error, aws_get_public_key_error}
use aws_nitro_enclaves_cose.Crypto.Algorithms.{
  SignatureAlgorithm, MessageDigest, es256, es384, es512,
}
use aws_nitro_enclaves_cose.Crypto.Openssl.Library.{
  Nid, x9_62_prime256v1, secp384r1, secp521r1, EllipticCurves,
}
use aws_nitro_enclaves_cose.Crypto.OpensslPkey.{curve_algorithm, ec_curve_to_parameters}
use aws_nitro_enclaves_cose.Crypto.OpensslPkey
use aws_nitro_enclaves_cose.Crypto.Kms.{
  KmsKey, obtain_public_key, new_with_public_key, get_parameters,
}
use aws_nitro_enclaves_cose.Crypto.Kms.Requests.{Service}

-- The three curves with their algorithms.
abbrev pub IsCurve : Nid → SignatureAlgorithm → Type 0
IsCurve n a =
    ((n ≡ x9_62_prime256v1) × (a ≡ es256))
    ⊎ ((n ≡ secp384r1) × (a ≡ es384))
    ⊎ ((n ≡ secp521r1) × (a ≡ es512))

curve_algorithm_iff :
    {X : Type 0} (debug : Nid → String) (n : Nid) (a : SignatureAlgorithm)
    → (curve_algorithm {X = X} debug n ≡ ok a) ↔ IsCurve n a
unfolding curve_algorithm
curve_algorithm_iff debug n a = ground arith

module _ {X S W PKey EcKey EcdsaSig : Type 0} (lib : EllipticCurves X W PKey EcKey EcdsaSig)
    (client : Service X S) where
  -- Where a public key is from, with the state of the service before and after: it was passed in and
  -- no request was made, or the service sent it in DER form.
  pub data IsObtained (key_id : String) : Option PKey → S → PKey → S → Type 0 where
    passed_in : (key : PKey) (s : S) → IsObtained key_id (some key) s key s
    from_service :
        (s t : S) (key : PKey) (der : Bytes)
        → client.get_public_key key_id s ≡ (ok (some der), t)
        → lib.public_key_from_der der ≡ ok key
        → IsObtained key_id none s key t

  obtain_public_key-IsObtained :
      (key_id : String) (public_key : Option PKey) (s t : S) (key : PKey)
      → obtain_public_key lib client key_id public_key s ≡ (ok key, t)
      → IsObtained key_id public_key s key t
  unfolding obtain_public_key
  obtain_public_key-IsObtained key_id (some given) s t key e =
      let (same, stays) = lift-eq-ok _ s e in
      subst (λ (z : PKey × S). IsObtained key_id (some given) s z.0 z.1)
        (λ i. (ok-injective same i, stays i)) (passed_in given s)
  obtain_public_key-IsObtained key_id none s t key e =
      state-elim (call_err aws_get_public_key_error (client.get_public_key key_id)) _ s e
        λ reply l r e₁.
          lift-elim (ok_or (unsupported_error "No public key returned") reply) _ l e₁ λ der o e₂.
            let (read, stays) = lift-eq-ok _ l e₂ in
            from_service s t key der
              (call_err-eq-ok aws_get_public_key_error (client.get_public_key key_id) s r
                ∙ (λ i. (ok (ok_or-eq-ok _ reply o i), stays i)))
              (map_err-eq-ok _ _ read)

  obtain_public_key_of :
      (key_id : String) (public_key : Option PKey) (s t : S) (key : PKey)
      → IsObtained key_id public_key s key t
      → obtain_public_key lib client key_id public_key s ≡ (ok key, t)
  unfolding obtain_public_key
  obtain_public_key_of key_id _ _ _ _ (passed_in key s) = refl
  obtain_public_key_of key_id _ _ _ _ (from_service s t key der sent read) = rw (sent, read)

  -- The curve of a public key, and the algorithm of that curve.
  pub record IsOnCurve (key : PKey) (a : SignatureAlgorithm) : Type 0 where
    pub ec : EcKey
    pub ec_found : lib.ec_key key ≡ ok ec
    pub curve : Nid
    pub curve_named : lib.curve_name ec ≡ some curve
    pub curve_is : IsCurve curve a

  -- A key with a public key at hand, and the state in which the service is left.
  pub record IsPaired (key_id : String) (public_key : Option PKey) (s : S) (k : KmsKey PKey) (t : S)
      : Type 0 where
    pub key_id_kept : k.key_id ≡ key_id
    pub public : PKey
    pub obtained : IsObtained key_id public_key s public t
    pub public_key_set : k.public_key ≡ some public
    pub on_curve : IsOnCurve public k.sig_alg

  IsPaired-of_result :
      (key_id : String) (public_key : Option PKey) (s : S) (k : KmsKey PKey) (t : S)
      → new_with_public_key lib client key_id public_key s ≡ (ok k, t)
      → IsPaired key_id public_key s k t
  unfolding new_with_public_key ec_curve_to_parameters
  IsPaired-of_result key_id public_key s k t e =
      state-elim (obtain_public_key lib client key_id public_key) _ s e λ p l o e₁.
        lift-elim (map_err (λ x. unsupported_error "Non-EC keys are not supported") (lib.ec_key p))
          _ l e₁
          λ ec r e₂.
            lift-elim
              (ok_or (unsupported_error "Anonymous EC keys are not supported") (lib.curve_name ec))
              _ l e₂
              λ n c e₃. lift-elim (ec_curve_to_parameters lib.debug n) _ l e₃ λ q g e₄.
                Outcome.bind-elim (curve_algorithm lib.debug n) _ g λ a b g₁.
                  let (made, stays) = lift-eq-ok _ l e₄ in
                  let named : a ≡ q.0 =
                    ap (λ (z : SignatureAlgorithm × MessageDigest × ℕ). z.0) (ok-injective g₁) in
                  subst (λ (z : KmsKey PKey × S). IsPaired key_id public_key s z.0 z.1)
                    (λ i. (ok-injective made i, stays i))
                    (record {
                      key_id_kept = refl;
                      public = p;
                      obtained = obtain_public_key-IsObtained key_id public_key s l p o;
                      public_key_set = refl;
                      on_curve = record {
                        ec = ec;
                        ec_found = map_err-eq-ok _ _ r;
                        curve = n;
                        curve_named = ok_or-eq-ok _ (lib.curve_name ec) c;
                        curve_is = (curve_algorithm_iff lib.debug n q.0).0 (b ∙ ap ok named);
                      };
                    })

  result_of_paired :
      (key_id : String) (public_key : Option PKey) (s : S) (k : KmsKey PKey) (t : S)
      → IsPaired key_id public_key s k t
      → new_with_public_key lib client key_id public_key s ≡ (ok k, t)
  unfolding new_with_public_key ec_curve_to_parameters
  result_of_paired key_id public_key s k t p =
      let o = p.on_curve in
      let made : new_with_public_key lib client key_id public_key s
          ≡ (ok record { key_id = key_id; sig_alg = k.sig_alg; public_key = some p.public }, t) =
        rw (
          obtain_public_key_of key_id public_key s t p.public p.obtained,
          o.ec_found,
          o.curve_named,
          (curve_algorithm_iff lib.debug o.curve k.sig_alg).1 o.curve_is,
        ) in
      made ∙ (λ i. (
        ok record {
          key_id = sym p.key_id_kept i;
          sig_alg = k.sig_alg;
          public_key = sym p.public_key_set i;
        },
        t,
      ))

  -- `new_with_public_key` makes a key exactly if the public key is on one of the three curves: the
  -- one that was passed in, and then the service is not asked, or else the one whose DER form the
  -- service sent for the id. The key made has the id, that public key and the algorithm of its curve.
  pub new_with_public_key_iff :
      (key_id : String) (public_key : Option PKey) (s : S) (k : KmsKey PKey) (t : S)
      → (new_with_public_key lib client key_id public_key s ≡ (ok k, t))
        ↔ IsPaired key_id public_key s k t
  new_with_public_key_iff key_id public_key s k t =
      (IsPaired-of_result key_id public_key s k t, result_of_paired key_id public_key s k t)

  -- Such a key has the parameters that its public key tells by itself.
  pub get_parameters-IsPaired :
      (key_id : String) (public_key : Option PKey) (s : S) (k : KmsKey PKey) (t : S)
      → (p : IsPaired key_id public_key s k t)
      → get_parameters lib client k ≡ OpensslPkey.get_parameters lib p.public
  unfolding get_parameters OpensslPkey.get_parameters OpensslPkey.curve_of ec_curve_to_parameters
  get_parameters-IsPaired key_id public_key s k t p =
      let o = p.on_curve in
      rw (o.ec_found, o.curve_named, (curve_algorithm_iff lib.debug o.curve k.sig_alg).1 o.curve_is)
