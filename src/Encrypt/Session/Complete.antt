-- ===== src/Encrypt/Session/Complete.antt =====
-- Every message that a sender of src/encrypt.rs sent is opened by `decrypt`.
use aws_nitro_enclaves_cose.Prelude.{Bytes, List, ◌≡◌, sym, some, Memᴰ}
use mathlib.Core.List.Memᴰ.{head, tail}
use mathlib.Core.Path.{subst}
use aws_nitro_enclaves_cose.Outcome.{ok}
use aws_nitro_enclaves_cose.Serde.{Cbor}
use aws_nitro_enclaves_cose.Serde.Laws.{CborLaws}
use aws_nitro_enclaves_cose.Crypto.Algorithms.{CoseAlgorithm, CipherConfiguration, cose_alg}
use aws_nitro_enclaves_cose.Crypto.Traits.{Entropy, Encryption, Decryption}
use aws_nitro_enclaves_cose.Crypto.Traits.Contracts.{IsInverse}
use aws_nitro_enclaves_cose.Encrypt.Cipher.{protected_map}
use aws_nitro_enclaves_cose.Encrypt.Decrypt.{decrypt}
use aws_nitro_enclaves_cose.Encrypt.Decrypt.RoundTrip.{decrypt-new}
use aws_nitro_enclaves_cose.Encrypt.Session.{Sealing, Sent, History, begin, sends}

module _ {X V W : Type 0} (c : Cbor X V) (L : CborLaws c) (entropy : Entropy X W)
    (encryption : Encryption X) (decryption : Decryption X)
    (inverse : IsInverse encryption decryption) (key : Bytes) (w₀ : W) where
  -- A message of which `decrypt` gives the payload, with the header map of the cipher that fits the key.
  pub record IsReadable (s : Sent V) : Type 0 where
    pub config : CipherConfiguration
    pub alg : CoseAlgorithm
    pub alg_of_key : cose_alg config key ≡ some alg
    pub opened :
        decrypt c decryption s.message key
        ≡ ok (protected_map c alg, s.message.unprotected, s.payload)

  -- Whatever the sender sent before and after: each of its messages decrypts under the key to its own
  -- payload. The cipher's decryption inverts its encryption and the format reads back what it writes.
  pub sent-IsReadable :
      {w : W} {hs : List Sealing} {ms : List (Sent V)} (s : Sent V)
      → History c entropy encryption key w₀ w hs ms
      → Memᴰ s ms
      → IsReadable s
  sent-IsReadable s begin i = elim i [ ]
  sent-IsReadable s (sends payload config m e rest) (tail i) = sent-IsReadable s rest i
  sent-IsReadable s (sends {w} payload config m e rest) (head same) =
      let (alg, fits, opened) =
        decrypt-new c L entropy encryption decryption inverse payload config key w m e in
      subst IsReadable (sym same)
        (record { config = config; alg = alg; alg_of_key = fits; opened = opened })
