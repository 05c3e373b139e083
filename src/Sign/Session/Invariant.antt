-- ===== src/Sign/Session/Invariant.antt =====
-- In every session, the digests that the key has signed are those of the messages, one for one.
use aws_nitro_enclaves_cose.Prelude.{Bytes, Bool, List, [], ◌∷◌, Bool-cases, inl, inr}
use aws_nitro_enclaves_cose.Outcome.{Outcome, ok, err, panic, map_err}
use aws_nitro_enclaves_cose.Call.{resume, resume-cases, lift}
use aws_nitro_enclaves_cose.Error.{CoseError, serialization_error}
use aws_nitro_enclaves_cose.Serde.{Cbor}
use aws_nitro_enclaves_cose.HeaderMap
use aws_nitro_enclaves_cose.HeaderMap.{HeaderMap}
use aws_nitro_enclaves_cose.Crypto.Traits.{Hash, SigningPrivateKey}
use aws_nitro_enclaves_cose.Crypto.Traits.Trace.{note, Uses, fresh, asks, verifies, signs}
use aws_nitro_enclaves_cose.Sign.Structure
use aws_nitro_enclaves_cose.Sign.Message.{CoseSign1}
use aws_nitro_enclaves_cose.Sign.Signing.{
  algorithm_matches, new, new_with_protected, verify_signature,
}
use aws_nitro_enclaves_cose.Sign.Signing.Verify.{struct_digest-eq-ok}
use aws_nitro_enclaves_cose.Sign.Signing.Release.{get_payload_lem}
use aws_nitro_enclaves_cose.Sign.Session.{
  Session, Event, create, create_with, check, read_payload, read_both, logged, step, IsReachable,
  begin, next,
}
use aws_nitro_enclaves_cose.Sign.Session.Digests.{IsDigest, Covers, nothing, one}

module _ {X V : Type 0} (c : Cbor X V) (h : Hash X) where
  module _ {K : Type 0} (key : SigningPrivateKey X K) (k₀ : K) where
    -- A history of the key that signed just the messages.
    pub record Accounts (k : K) (ms : List (CoseSign1 V)) : Type 0 where
      pub digests : List Bytes
      pub uses : Uses key k₀ digests k
      pub covers : Covers c h digests ms

    get_parameters-Accounts :
        (k : K) (ms : List (CoseSign1 V)) → Accounts k ms → Accounts (key.get_parameters k).1 ms
    get_parameters-Accounts k ms a = record {
      digests = a.digests;
      uses = asks a.uses;
      covers = a.covers;
    }

    verify_signature-Accounts :
        (m : CoseSign1 V) (k : K) (ms : List (CoseSign1 V))
        → Accounts k ms
        → Accounts (verify_signature c h m key.public_key k).1 ms
    unfolding verify_signature
    verify_signature-Accounts m k ms a =
        let R : Outcome (CoseError X) Bool × K → Type 0 = λ z. Accounts z.1 ms in
        let after = (key.get_parameters k).1 in
        let asked : Accounts after ms = get_parameters-Accounts k ms a in
        resume-cases R (key.get_parameters k).0 _ after
          (λ (alg, digest) e₁.
            resume-cases R (map_err serialization_error (HeaderMap.from_bytes c m.protected)) _
              after
              (λ header e₂.
                resume-cases R (algorithm_matches c header alg) _ after
                  (λ (is_expected : Bool) e₃. elim (Bool-cases is_expected) [
                    | inl same ↦ rw same (
                        resume-cases R (Structure.struct_digest c h digest m.protected m.payload) _
                          after
                          (λ d e₄. record {
                            digests = asked.digests;
                            uses = verifies d m.signature asked.uses;
                            covers = asked.covers;
                          })
                          (λ e. asked) asked)
                    | inr differs ↦ rw differs asked
                  ])
                  (λ e. asked) asked)
              (λ e. asked) asked)
          (λ e. asked) asked

    -- A signature adds its message to the list, and its digest to the history.
    sign-Accounts :
        (d protected payload : Bytes) (unprotected : HeaderMap V) (k : K) (ms : List (CoseSign1 V))
        (ds : List Bytes) (r : Outcome (CoseError X) Bytes)
        → ((s : Bytes)
            → IsDigest c h
                (record {
                  protected = protected;
                  unprotected = unprotected;
                  payload = payload;
                  signature = s;
                })
                d)
        → Uses key k₀ (note r d ds) k
        → Covers c h ds ms
        → let z =
            resume {B = CoseSign1 V} r
              (λ s. lift (
                ok record {
                  protected = protected;
                  unprotected = unprotected;
                  payload = payload;
                  signature = s;
                }))
              k in
          Accounts z.1 (logged {E = CoseError X} z.0 ms)
    sign-Accounts d protected payload unprotected k ms ds (ok s) g u cover = record {
      digests = d ∷ ds;
      uses = u;
      covers = one (g s) cover;
    }
    sign-Accounts d protected payload unprotected k ms ds (err e) g u cover = record {
      digests = ds;
      uses = u;
      covers = cover;
    }
    sign-Accounts d protected payload unprotected k ms ds panic g u cover = record {
      digests = ds;
      uses = u;
      covers = cover;
    }

    new_with_protected-Accounts :
        (payload : Bytes) (protected unprotected : HeaderMap V) (k : K) (ms : List (CoseSign1 V))
        → Accounts k ms
        → let z = new_with_protected c h key payload protected unprotected k in
          Accounts z.1 (logged z.0 ms)
    unfolding new_with_protected
    new_with_protected-Accounts payload protected unprotected k ms a =
        let R : Outcome (CoseError X) (CoseSign1 V) × K → Type 0 =
          λ z. Accounts z.1 (logged z.0 ms) in
        let after = (key.get_parameters k).1 in
        let asked : Accounts after ms = get_parameters-Accounts k ms a in
        resume-cases R (key.get_parameters k).0 _ after
          (λ (alg, digest) e₁.
            resume-cases R
              (map_err serialization_error (HeaderMap.map_to_empty_or_serialized c protected)) _
              after
              (λ b e₂.
                resume-cases R (Structure.struct_digest c h digest b payload) _ after
                  (λ d e₃.
                    let (structure, written, hashed) =
                      struct_digest-eq-ok c h digest b payload e₃ in
                    sign-Accounts d b payload unprotected (key.sign d after).1 ms asked.digests
                      (key.sign d after).0
                      (λ s. record {
                        algorithm = digest;
                        structure = structure;
                        structure_written = written;
                        hashed = hashed;
                      })
                      (signs d asked.uses) asked.covers)
                  (λ e. asked) asked)
              (λ e. asked) asked)
          (λ e. asked) asked

    new-Accounts :
        (payload : Bytes) (unprotected : HeaderMap V) (k : K) (ms : List (CoseSign1 V))
        → Accounts k ms
        → let z = new c h key payload unprotected k in Accounts z.1 (logged z.0 ms)
    unfolding new
    new-Accounts payload unprotected k ms a =
        let R : Outcome (CoseError X) (CoseSign1 V) × K → Type 0 =
          λ z. Accounts z.1 (logged z.0 ms) in
        let after = (key.get_parameters k).1 in
        let asked : Accounts after ms = get_parameters-Accounts k ms a in
        resume-cases R (key.get_parameters k).0 _ after
          (λ (alg, digest) e. new_with_protected-Accounts payload _ unprotected after ms asked)
          (λ e. asked) asked

    step-Accounts :
        (e : Event V) (s : Session V K)
        → Accounts s.key_state s.signed
        → Accounts (step c h key e s).key_state (step c h key e s).signed
    unfolding step
    step-Accounts (create payload unprotected) s a =
        new-Accounts payload unprotected s.key_state s.signed a
    step-Accounts (create_with payload protected unprotected) s a =
        new_with_protected-Accounts payload protected unprotected s.key_state s.signed a
    step-Accounts (check m) s a = verify_signature-Accounts m s.key_state s.signed a
    step-Accounts (read_payload m) s a =
        rw ((get_payload_lem c h m key.public_key s.key_state).0)
          (verify_signature-Accounts m s.key_state s.signed a)
    step-Accounts (read_both m) s a =
        rw ((get_payload_lem c h m key.public_key s.key_state).1)
          (verify_signature-Accounts m s.key_state s.signed a)

    -- In every session that the program may come to, the key's history has signed the digests of just
    -- the messages that were created, in their order. Nothing is asked of the key, the hash or the
    -- format.
    pub IsReachable-Accounts :
        (s : Session V K) → IsReachable c h key k₀ s → Accounts s.key_state s.signed
    IsReachable-Accounts s begin = record { digests = []; uses = fresh; covers = nothing }
    IsReachable-Accounts s (next {s = before} e reached) =
        step-Accounts e before (IsReachable-Accounts before reached)
