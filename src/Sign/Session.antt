-- ===== src/Sign/Session.antt =====
-- A program that holds a signing key and uses src/sign.rs with it: it signs messages, and reads
-- messages that come from anywhere. Its state is that of the key and the messages that it has signed.
pub mod Digests
pub mod Invariant
pub mod Safety
pub mod Complete
use aws_nitro_enclaves_cose.Prelude.{Bytes, List, [], ◌∷◌, some}
use aws_nitro_enclaves_cose.Outcome.{Outcome, ok, err, panic}
use aws_nitro_enclaves_cose.Serde.{Cbor}
use aws_nitro_enclaves_cose.HeaderMap.{HeaderMap}
use aws_nitro_enclaves_cose.Crypto.Traits.{Hash, SigningPrivateKey}
use aws_nitro_enclaves_cose.Sign.Message.{CoseSign1}
use aws_nitro_enclaves_cose.Sign.Signing.{
  new, new_with_protected, verify_signature, get_protected_and_payload, get_payload,
}

pub record Session (V K : Type 0) : Type 0 where
  pub key_state : K
  pub signed : List (CoseSign1 V)

-- The calls that the program may make, in any order and with any arguments.
pub data Event (V : Type 0) : Type 0 where
  create : Bytes → HeaderMap V → Event V
  create_with : Bytes → HeaderMap V → HeaderMap V → Event V
  check : CoseSign1 V → Event V
  read_payload : CoseSign1 V → Event V
  read_both : CoseSign1 V → Event V

abbrev pub logged :
    {E V : Type 0} → Outcome E (CoseSign1 V) → List (CoseSign1 V) → List (CoseSign1 V)
logged (ok m) ms = m ∷ ms
logged (err e) ms = ms
logged panic ms = ms

module _ {X V K : Type 0} (c : Cbor X V) (h : Hash X) (key : SigningPrivateKey X K) where
  unfoldable pub step : Event V → Session V K → Session V K
  step (create payload unprotected) s =
      let z = new c h key payload unprotected s.key_state in
      record { key_state = z.1; signed = logged z.0 s.signed }
  step (create_with payload protected unprotected) s =
      let z = new_with_protected c h key payload protected unprotected s.key_state in
      record { key_state = z.1; signed = logged z.0 s.signed }
  step (check m) s = record s { key_state = (verify_signature c h m key.public_key s.key_state).1 }
  step (read_payload m) s = record s {
    key_state = (get_payload c h m (some key.public_key) s.key_state).1;
  }
  step (read_both m) s = record s {
    key_state = (get_protected_and_payload c h m (some key.public_key) s.key_state).1;
  }

  -- The sessions that such a program may come to, from a key in the state `k₀`.
  pub data IsReachable (k₀ : K) : Session V K → Type 0 where
    begin : IsReachable k₀ record { key_state = k₀; signed = [] }
    next : {s : Session V K} (e : Event V) → IsReachable k₀ s → IsReachable k₀ (step e s)
