-- ===== src/Sign/Signing/Readers.antt =====
-- A message of src/sign.rs between two parties: a KMS key signs, and whoever has its public key in
-- OpenSSL reads.
use aws_nitro_enclaves_cose.Prelude.{Bytes, Bool, ◌≡◌, some}
use aws_nitro_enclaves_cose.Outcome.{ok}
use aws_nitro_enclaves_cose.OrderedMap.Order.{IsSorted}
use aws_nitro_enclaves_cose.Serde.{Cbor}
use aws_nitro_enclaves_cose.Serde.Laws.{CborLaws}
use aws_nitro_enclaves_cose.HeaderMap.{HeaderMap}
use aws_nitro_enclaves_cose.Crypto.Traits.{Hash}
use aws_nitro_enclaves_cose.Crypto.Openssl.Library.{EllipticCurves, EllipticCurvesLaws}
use aws_nitro_enclaves_cose.Crypto.OpensslPkey
use aws_nitro_enclaves_cose.Crypto.Kms
use aws_nitro_enclaves_cose.Crypto.Kms.{KmsKey}
use aws_nitro_enclaves_cose.Crypto.Kms.Requests.{Service}
use aws_nitro_enclaves_cose.Crypto.Kms.Local.{IsLocal, soundness, public_key_openssl-IsReader}
use aws_nitro_enclaves_cose.Sign.Message.{CoseSign1, as_bytes, from_bytes}
use aws_nitro_enclaves_cose.Sign.Signing.{new, get_payload}
use aws_nitro_enclaves_cose.Sign.Signing.Travel.{get_payload-from_bytes-as_bytes-new_reader}

-- What a KMS key signed with `new` and wrote with `as_bytes`, tagged or not, is read by a party that
-- has only the public key in OpenSSL, and asks no service: `from_bytes` gives the message, and
-- `get_payload` with the OpenSSL key the payload, at any time. The public key is that of the KMS key,
-- the unprotected map is well formed and the format reads back what it writes.
pub get_payload-from_bytes-as_bytes-new_kms :
    {X V S W PKey EcKey EcdsaSig : Type 0} (c : Cbor X V) (L : CborLaws c) (h : Hash X)
    (lib : EllipticCurves X W PKey EcKey EcdsaSig) (E : EllipticCurvesLaws lib)
    (client : Service X S) (k : KmsKey PKey) (public : PKey) (u : IsLocal lib client k public)
    (at_hand : k.public_key ≡ some public) (payload : Bytes) (unprotected : HeaderMap V) (state : S)
    (w : W) (m : CoseSign1 V) (is_tagged : Bool) (b : Bytes)
    → IsSorted c.cmp unprotected
    → (new c h (Kms.private_key lib client k) payload unprotected state).0 ≡ ok m
    → as_bytes c m is_tagged ≡ ok b
    → (from_bytes c b ≡ ok m)
      × ((get_payload c h m (some (OpensslPkey.public_key lib public)) w).0 ≡ ok payload)
get_payload-from_bytes-as_bytes-new_kms c L h lib E client k public u at_hand payload unprotected
      state w m is_tagged b sorted e written =
    get_payload-from_bytes-as_bytes-new_reader c L h (Kms.private_key lib client k)
      (soundness lib client E k public u at_hand) (OpensslPkey.public_key lib public)
      (public_key_openssl-IsReader lib client E k public u at_hand) payload unprotected state w m
      is_tagged b sorted e written
