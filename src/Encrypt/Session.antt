-- ===== src/Encrypt/Session.antt =====
-- A sender that encrypts messages with one key by `new` of src/encrypt.rs, and what its cipher was
-- given.
pub mod Safety
pub mod Complete
use aws_nitro_enclaves_cose.Prelude.{Bytes, List, [], ◌∷◌, some, ◌≡◌, Memᴰ}
use aws_nitro_enclaves_cose.Outcome.{ok, err, panic}
use aws_nitro_enclaves_cose.Error.{CoseError}
use aws_nitro_enclaves_cose.Serde.{Cbor}
use aws_nitro_enclaves_cose.Crypto.Algorithms.{
  CipherConfiguration, EncryptionAlgorithm, to_encryption_algorithm,
}
use aws_nitro_enclaves_cose.Crypto.Traits.{Entropy, Encryption, Decryption}
use aws_nitro_enclaves_cose.Encrypt.Message.{CoseEncrypt0}
use aws_nitro_enclaves_cose.Encrypt.Cipher.{new}
use aws_nitro_enclaves_cose.Encrypt.Decrypt.RoundTrip.{IsEncrypted, new-IsEncrypted}

-- What a cipher is given under the key: the algorithm, the IV, the additional data and the text.
abbrev pub Sealing : Type 0
Sealing = EncryptionAlgorithm × Bytes × Bytes × Bytes

-- A message that was sent, with its payload.
pub record Sent (V : Type 0) : Type 0 where
  pub payload : Bytes
  pub message : CoseEncrypt0 V

module _ {X V W : Type 0} (c : Cbor X V) (entropy : Entropy X W) (encryption : Encryption X)
    (key : Bytes) where
  abbrev pub sealing_of :
      {w : W} {payload : Bytes} {config : CipherConfiguration} {m : CoseEncrypt0 V}
      → IsEncrypted c entropy w encryption payload config key m
      → Sealing
  sealing_of {payload} g = (to_encryption_algorithm g.alg, g.iv, g.aad, payload)

  -- The sender's history: the state of its generator, what its cipher was given, and what it sent, the
  -- last message first. A call of `new` that fails is not followed by a message.
  pub data History (w₀ : W) : W → List Sealing → List (Sent V) → Type 0 where
    begin : History w₀ w₀ [] []
    sends :
        {w : W} {hs : List Sealing} {ms : List (Sent V)} (payload : Bytes)
        (config : CipherConfiguration) (m : CoseEncrypt0 V)
        (e : (new c entropy encryption payload config key w).0 ≡ ok m)
        → History w₀ w hs ms
        → History w₀
            (new c entropy encryption payload config key w).1
            (sealing_of (new-IsEncrypted c entropy encryption payload config key w m e) ∷ hs)
            (record { payload = payload; message = m } ∷ ms)

-- An ideal cipher, which opens nothing under the key but what it was given.
pub record IsIdealCipher {X : Type 0} (decryption : Decryption X) (key : Bytes) (hs : List Sealing)
    : Type 0 where
  pub opens_sealed :
      (a : EncryptionAlgorithm) (iv aad text tag payload : Bytes)
      → decryption.decrypt_aead a key (some iv) aad text tag ≡ ok payload
      → Memᴰ (a, iv, aad, payload) hs
