-- ===== src/Sign/Session/Complete.antt =====
-- What a session has signed stays readable in it.
use aws_nitro_enclaves_cose.Prelude.{pos, Bytes, Memᴰ, some, ◌≡◌, refl, sym, List}
use mathlib.Core.List.Memᴰ.{head, tail}
use mathlib.Core.Path.{subst}
use aws_nitro_enclaves_cose.Outcome.{Outcome, ok, err, panic}
use aws_nitro_enclaves_cose.Error.{CoseError}
use aws_nitro_enclaves_cose.Serde.{Cbor, integer}
use aws_nitro_enclaves_cose.HeaderMap
use aws_nitro_enclaves_cose.HeaderMap.{HeaderMap}
use aws_nitro_enclaves_cose.Crypto.Algorithms.{discriminant}
use aws_nitro_enclaves_cose.Crypto.Traits.{Hash, SigningPrivateKey}
use aws_nitro_enclaves_cose.Crypto.Traits.Contracts.{IsSound, public_key-IsReader}
use aws_nitro_enclaves_cose.Sign.Message.{CoseSign1}
use aws_nitro_enclaves_cose.Sign.Signing.{new, new_with_protected, get_payload}
use aws_nitro_enclaves_cose.Sign.Signing.Verify.{verify_signature_of}
use aws_nitro_enclaves_cose.Sign.Signing.Create.{
  IsAccepted-of_signed, IsSigned, new_with_protected-IsSigned, new-IsSigned,
}
use aws_nitro_enclaves_cose.Sign.Signing.Release.{get_payload_iff}
use aws_nitro_enclaves_cose.Sign.Session.{
  Session, Event, create, create_with, check, read_payload, read_both, logged, step, IsReachable,
  begin, next,
}

module _ {X V K : Type 0} (c : Cbor X V) (h : Hash X) (key : SigningPrivateKey X K)
    (S : IsSound key) where
  -- The message came out of a signing call.
  record Origin (m : CoseSign1 V) : Type 0 where
    pub payload : Bytes
    pub protected : HeaderMap V
    pub unprotected : HeaderMap V
    pub before : K
    pub made : IsSigned c h key S payload protected unprotected before m

  logged-Origin :
      (r : Outcome (CoseError X) (CoseSign1 V)) (ms : List (CoseSign1 V)) (m : CoseSign1 V)
      → ((m' : CoseSign1 V) → r ≡ ok m' → Origin m')
      → (Memᴰ m ms → Origin m)
      → Memᴰ m (logged r ms)
      → Origin m
  logged-Origin (ok m') ms m new_one old (head e) = subst Origin (sym e) (new_one m' refl)
  logged-Origin (ok m') ms m new_one old (tail i) = old i
  logged-Origin (err e) ms m new_one old i = old i
  logged-Origin panic ms m new_one old i = old i

  step-Origin :
      (e : Event V) (s : Session V K) (m : CoseSign1 V)
      → (Memᴰ m s.signed → Origin m)
      → Memᴰ m (step c h key e s).signed
      → Origin m
  unfolding step
  step-Origin (create payload unprotected) s m old i =
      logged-Origin (new c h key payload unprotected s.key_state).0 s.signed m
        (λ m' e. record {
          payload = payload;
          protected = _;
          unprotected = unprotected;
          before = s.key_state;
          made = new-IsSigned c h key S payload unprotected s.key_state m' e;
        })
        old i
  step-Origin (create_with payload protected unprotected) s m old i =
      logged-Origin (new_with_protected c h key payload protected unprotected s.key_state).0
        s.signed m
        (λ m' e. record {
          payload = payload;
          protected = protected;
          unprotected = unprotected;
          before = s.key_state;
          made =
              new_with_protected-IsSigned c h key S payload protected unprotected s.key_state m' e;
        })
        old i
  step-Origin (check m') s m old i = old i
  step-Origin (read_payload m') s m old i = old i
  step-Origin (read_both m') s m old i = old i

  signed-Origin :
      (k₀ : K) (s : Session V K) (m : CoseSign1 V)
      → IsReachable c h key k₀ s
      → Memᴰ m s.signed
      → Origin m
  signed-Origin k₀ s m begin i = elim i [ ]
  signed-Origin k₀ s m (next {s = before} e reached) i =
      step-Origin e before m (signed-Origin k₀ before m reached) i

  -- A message that was signed in a session, and whose protected bytes hold a header map that names the
  -- key's algorithm, never becomes unreadable: with the key in any state, `get_payload` gives its
  -- payload. The key is sound.
  pub get_payload-signed :
      (k₀ k : K) (s : Session V K) (m : CoseSign1 V) (header : HeaderMap V) (v : V)
      → IsReachable c h key k₀ s
      → Memᴰ m s.signed
      → HeaderMap.from_bytes c m.protected ≡ ok header
      → HeaderMap.get c (c.of_integer (pos 1)) header ≡ some v
      → c.view v ≡ integer (discriminant S.algorithm)
      → (get_payload c h m (some key.public_key) k).0 ≡ ok m.payload
  get_payload-signed k₀ k s m header v reached there read found view =
      let o = signed-Origin k₀ s m reached there in
      (get_payload_iff c h m key.public_key k m.payload).1 (
        verify_signature_of c h m key.public_key k (
            IsAccepted-of_signed c h key S key.public_key (public_key-IsReader key S) o.payload
              o.protected o.unprotected header o.before k m v o.made read found view),
        refl,
      )
