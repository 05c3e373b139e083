-- ===== src/Encrypt/Decrypt/Travel.antt =====
-- A message of src/encrypt.rs from its sender to its reader: `new`, `as_bytes`, `from_bytes` and
-- `decrypt`.
use aws_nitro_enclaves_cose.Prelude.{Bytes, Bool, some, ◌≡◌}
use aws_nitro_enclaves_cose.Outcome.{ok}
use aws_nitro_enclaves_cose.OrderedMap
use aws_nitro_enclaves_cose.OrderedMap.Order.{IsSorted}
use aws_nitro_enclaves_cose.Serde.{Cbor}
use aws_nitro_enclaves_cose.Serde.Laws.{CborLaws}
use aws_nitro_enclaves_cose.HeaderMap
use aws_nitro_enclaves_cose.Crypto.Algorithms.{CoseAlgorithm, CipherConfiguration, cose_alg}
use aws_nitro_enclaves_cose.Crypto.Traits.Contracts.{IsInverse}
use aws_nitro_enclaves_cose.Crypto.Traits.{Entropy, Encryption, Decryption}
use aws_nitro_enclaves_cose.Encrypt.Message.{CoseEncrypt0, as_bytes, from_bytes}
use aws_nitro_enclaves_cose.Encrypt.Message.RoundTrip.{from_bytes-as_bytes_encrypt0}
use aws_nitro_enclaves_cose.Encrypt.Cipher.{protected_map, unprotected_map, new}
use aws_nitro_enclaves_cose.Encrypt.Decrypt.{decrypt}
use aws_nitro_enclaves_cose.Encrypt.Decrypt.Opened.{decrypt_of_opened}
use aws_nitro_enclaves_cose.Encrypt.Decrypt.RoundTrip.{new-IsEncrypted, IsOpened-IsEncrypted}

module _ {X V : Type 0} (c : Cbor X V) (L : CborLaws c) where
  unprotected_map-IsSorted : (iv : Bytes) → IsSorted c.cmp (unprotected_map c iv)
  unfolding unprotected_map HeaderMap.insert OrderedMap.insert
  unprotected_map-IsSorted iv = (tt, tt)

  -- A payload that was encrypted with `new` and written with `as_bytes`, tagged or not, is what a
  -- reader with the same key gets: `from_bytes` gives the sender's message, and `decrypt` the payload
  -- with the header map that names the cipher of the key's length. The cipher's decryption inverts
  -- its encryption and the format reads back what it writes.
  pub decrypt-from_bytes-as_bytes-new :
      {W : Type 0} (entropy : Entropy X W) (encryption : Encryption X) (decryption : Decryption X)
      → IsInverse encryption decryption
      → (payload : Bytes) (config : CipherConfiguration) (key : Bytes) (w : W) (m : CoseEncrypt0 V)
        (is_tagged : Bool) (b : Bytes)
      → (new c entropy encryption payload config key w).0 ≡ ok m
      → as_bytes c m is_tagged ≡ ok b
      → (from_bytes c b ≡ ok m)
        × ((a : CoseAlgorithm) × (cose_alg config key ≡ some a)
            × (decrypt c decryption m key ≡ ok (protected_map c a, m.unprotected, payload)))
  decrypt-from_bytes-as_bytes-new entropy encryption decryption inverse payload config key w m
        is_tagged b e written =
      let g = new-IsEncrypted c entropy encryption payload config key w m e in
      let o = IsOpened-IsEncrypted c L inverse g in
      let sorted : IsSorted c.cmp m.unprotected =
        rw g.unprotected_made (unprotected_map-IsSorted g.iv) in
      (
        from_bytes-as_bytes_encrypt0 c L m (protected_map c g.alg) is_tagged b sorted o.header_read
            written,
        (
          g.alg,
          g.alg_of_key,
          decrypt_of_opened c decryption m key (protected_map c g.alg) payload o,
        ),
      )
