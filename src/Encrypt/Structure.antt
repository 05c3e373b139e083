-- ===== src/Encrypt/Structure.antt =====
-- `EncStructure` of src/encrypt.rs: the data that is authenticated with the ciphertext.
use aws_nitro_enclaves_cose.Prelude.{Bytes, codes, []}
use aws_nitro_enclaves_cose.Outcome.{Outcome, ok}
use aws_nitro_enclaves_cose.Serde.{Cbor, Item, bytes, str, seq, nil, cons}

pub record EncStructure : Type 0 where
  pub context : Bytes
  pub protected : Bytes
  pub external_aad : Bytes

unfoldable pub new_encrypt0 : {X : Type 0} → Bytes → Outcome X EncStructure
new_encrypt0 protected =
    ok record { context = codes "Encrypt0"; protected = protected; external_aad = [] }

-- `impl Serialize for EncStructure`
unfoldable pub serialize : {V : Type 0} → EncStructure → Item V
serialize s =
    seq (cons (str s.context) (cons (bytes s.protected) (cons (bytes s.external_aad) nil)))

unfoldable pub as_bytes : {X V : Type 0} → Cbor X V → EncStructure → Outcome X Bytes
unfolding serialize
as_bytes c s = c.to_vec (serialize s)

-- The Enc_structure of RFC 8152, section 5.3, over protected bytes: the context, the bytes, and no
-- external data.
abbrev pub enc_structure : {V : Type 0} → Bytes → Item V
enc_structure protected =
    seq (cons (str (codes "Encrypt0")) (cons (bytes protected) (cons (bytes []) nil)))
