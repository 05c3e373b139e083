-- ===== src/Crypto/Traits/Trace.antt =====
-- What has been done with a key of src/crypto/mod.rs since it was at hand, and which digests it signed.
use aws_nitro_enclaves_cose.Prelude.{Bytes, List, [], ◌∷◌, true, ◌≡◌, Memᴰ}
use aws_nitro_enclaves_cose.Outcome.{Outcome, ok, err, panic}
use aws_nitro_enclaves_cose.Crypto.Algorithms.{MessageDigest}
use aws_nitro_enclaves_cose.Crypto.Traits.{Hash, SigningPrivateKey}

-- A result is noted only if there is one.
abbrev pub note : {E A B : Type 0} → Outcome E A → B → List B → List B
note (ok a) b bs = b ∷ bs
note (err e) b bs = bs
note panic b bs = bs

-- The calls on a key that began in the state `k₀`: `Uses key k₀ ds k` is a history that ends in the
-- state `k`, in which the digests `ds` were signed, the last one first.
pub data Uses {X K : Type 0} (key : SigningPrivateKey X K) (k₀ : K) : List Bytes → K → Type 0 where
  fresh : Uses key k₀ [] k₀
  asks : {ds : List Bytes} {k : K} → Uses key k₀ ds k → Uses key k₀ ds (key.get_parameters k).1
  verifies :
      {ds : List Bytes} {k : K} (d s : Bytes)
      → Uses key k₀ ds k
      → Uses key k₀ ds (key.verify d s k).1
  signs :
      {ds : List Bytes} {k : K} (d : Bytes)
      → Uses key k₀ ds k
      → Uses key k₀ (note (key.sign d k).0 d ds) (key.sign d k).1

-- An ideal signature scheme and an ideal hash: the key accepts no digest that it did not sign in its
-- history, and two texts have different digests.
pub record IsIdeal {X K : Type 0} (h : Hash X) (key : SigningPrivateKey X K) (k₀ : K) : Type 0 where
  pub hash-injective :
      (a b : MessageDigest) (x y d : Bytes) → h.hash a x ≡ ok d → h.hash b y ≡ ok d → x ≡ y
  pub verify_signed :
      {ds : List Bytes} {k : K} (d s : Bytes)
      → Uses key k₀ ds k
      → (key.verify d s k).0 ≡ ok true
      → Memᴰ d ds
