-- ===== src/Tests/Witnesses/Sessions.antt =====
-- The theorems on sessions at a session with one signed message, and a message between two parties.
use mathlib.Core.List.Memᴰ.{head}
use aws_nitro_enclaves_cose.Prelude.{negsuc, true, [], ◌≡◌, refl, some}
use aws_nitro_enclaves_cose.Outcome.{ok}
use aws_nitro_enclaves_cose.Crypto.Openssl.Library.{x9_62_prime256v1}
use aws_nitro_enclaves_cose.Crypto.OpensslPkey
use aws_nitro_enclaves_cose.Sign.Message.{from_bytes}
use aws_nitro_enclaves_cose.Sign.Signing.Readers.{get_payload-from_bytes-as_bytes-new_kms}
use aws_nitro_enclaves_cose.Sign.Signing.{get_payload}
use aws_nitro_enclaves_cose.Sign.Session.Invariant.{Accounts, IsReachable-Accounts}
use aws_nitro_enclaves_cose.Sign.Session.Safety.{IsSignedIn, get_payload-IsSignedIn}
use aws_nitro_enclaves_cose.Sign.Session.Complete.{get_payload-signed}
use aws_nitro_enclaves_cose.Tests.Value.{int}
use aws_nitro_enclaves_cose.Tests.Format.{format, format-CborLaws}
use aws_nitro_enclaves_cose.Tests.Keys.{
  curves, curves-EllipticCurvesLaws, p256_key, p256_key-IsSound, sum_hash,
}
use aws_nitro_enclaves_cose.Tests.KmsSigned
use aws_nitro_enclaves_cose.Tests.Services.{service, local_key, local_key-IsLocal}
use aws_nitro_enclaves_cose.Tests.Signed
use aws_nitro_enclaves_cose.Tests.Signed.{
  keep_hash, payload, header, header_read, header_alg, view_es256, tagged_bytes, as_bytes_tagged,
}
use aws_nitro_enclaves_cose.Tests.Ledger.{
  ledger_key, ledger_key-IsIdeal, message, session, session_reached, payload_read, p256_session,
  p256_session_reached,
}

IsReachable-Accounts_example :
    Accounts format keep_hash ledger_key [] session.key_state session.signed
IsReachable-Accounts_example =
    IsReachable-Accounts format keep_hash ledger_key [] session session_reached

get_payload-IsSignedIn_example :
    IsSignedIn format format-CborLaws keep_hash ledger_key [] ledger_key-IsIdeal session
      message.protected payload
get_payload-IsSignedIn_example =
    get_payload-IsSignedIn format format-CborLaws keep_hash ledger_key [] ledger_key-IsIdeal session
      message payload session_reached payload_read

get_payload-signed_example :
    (get_payload format sum_hash Signed.message (some p256_key.public_key) 7).0 ≡ ok payload
get_payload-signed_example =
    get_payload-signed format sum_hash p256_key p256_key-IsSound 0 7 p256_session Signed.message
      header (int (negsuc 6)) p256_session_reached (head refl) header_read header_alg view_es256

get_payload-from_bytes-as_bytes-new_kms_example :
    (from_bytes format tagged_bytes ≡ ok Signed.message)
    × ((get_payload format sum_hash Signed.message
          (some (OpensslPkey.public_key curves x9_62_prime256v1))
          7).0
        ≡ ok payload)
get_payload-from_bytes-as_bytes-new_kms_example =
    get_payload-from_bytes-as_bytes-new_kms format format-CborLaws sum_hash curves
      curves-EllipticCurvesLaws service local_key x9_62_prime256v1 local_key-IsLocal refl payload []
      0 7 Signed.message true tagged_bytes tt KmsSigned.message_signed as_bytes_tagged
