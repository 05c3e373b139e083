-- ===== src/Sign/Session/Digests.antt =====
-- The digests of src/sign.rs that stand for a list of messages.
use aws_nitro_enclaves_cose.Prelude.{Bytes, List, [], ◌∷◌, Memᴰ, ◌≡◌, sym, refl}
use mathlib.Core.List.Memᴰ.{head, tail}
use mathlib.Core.Path.{subst}
use aws_nitro_enclaves_cose.Outcome.{ok}
use aws_nitro_enclaves_cose.Serde.{Cbor}
use aws_nitro_enclaves_cose.Crypto.Algorithms.{MessageDigest}
use aws_nitro_enclaves_cose.Crypto.Traits.{Hash}
use aws_nitro_enclaves_cose.Sign.Message.{CoseSign1}
use aws_nitro_enclaves_cose.Sign.Signing.Verify.{sig_structure}

module _ {X V : Type 0} (c : Cbor X V) (h : Hash X) where
  -- `d` is a digest of the message's Sig_structure.
  pub record IsDigest (m : CoseSign1 V) (d : Bytes) : Type 0 where
    pub algorithm : MessageDigest
    pub structure : Bytes
    pub structure_written : c.to_vec (sig_structure m.protected m.payload) ≡ ok structure
    pub hashed : h.hash algorithm structure ≡ ok d

  pub data Covers : List Bytes → List (CoseSign1 V) → Type 0 where
    nothing : Covers [] []
    one :
        {d : Bytes} {m : CoseSign1 V} {ds : List Bytes} {ms : List (CoseSign1 V)}
        → IsDigest m d
        → Covers ds ms
        → Covers (d ∷ ds) (m ∷ ms)

  pub Covers-Mem :
      {ds : List Bytes} {ms : List (CoseSign1 V)} {d : Bytes}
      → Covers ds ms
      → Memᴰ d ds
      → (m : CoseSign1 V) × Memᴰ m ms × IsDigest m d
  Covers-Mem nothing i = elim i [ ]
  Covers-Mem (one {m} g rest) (head e) = (m, head refl, subst (IsDigest m) (sym e) g)
  Covers-Mem (one g rest) (tail i) = let (m, j, g') = Covers-Mem rest i in (m, tail j, g')
