-- ===== src/Lib.antt =====
-- aws-nitro-enclaves-cose, a Rust crate for COSE (RFC 8152): single-signer messages (CoseSign1),
-- messages encrypted for one recipient (CoseEncrypt0), their header maps, and the keys and providers
-- that sign, verify, hash and encrypt for them.
--
-- The parts. A message holds its protected headers as bytes and its unprotected headers as a map
-- (src/header_map.rs). CoseSign1 (src/sign.rs) signs the digest of a Sig_structure over the protected
-- bytes and the payload with a key, an object behind the traits of src/crypto/mod.rs: an OpenSSL key
-- (src/crypto/openssl_pkey.rs), a key of AWS KMS (src/crypto/kms.rs) or one in a TPM
-- (src/crypto/tpm.rs). CoseEncrypt0 (src/encrypt.rs) encrypts with an AEAD cipher over an
-- Enc_structure; the provider of ciphers, hashes and randomness is src/crypto/openssl.rs. All errors
-- are those of src/error.rs.
--
-- The files, and the code they model:
--   Error              src/error.rs: CoseError, Display (display), Error::source (source)
--   HeaderMap          src/header_map.rs: HeaderMap and its methods, map_to_empty_or_serialized
--   OrderedMap         the BTreeMap of a header map, as its entries in the order of the keys
--   Crypto/Algorithms  the enums of src/crypto/mod.rs and src/encrypt.rs and their conversions
--   Crypto/Traits      the traits of src/crypto/mod.rs, as records of functions
--   Crypto/Signature   merge_ec_signature of src/crypto/mod.rs, with split_at and copy_from_slice
--   Crypto/Openssl     src/crypto/openssl.rs; Library is the openssl crate that it calls
--   Crypto/OpensslPkey src/crypto/openssl_pkey.rs
--   Crypto/Kms         src/crypto/kms.rs; Requests is the service that it calls
--   Crypto/Tpm         src/crypto/tpm.rs; Library is the tss_esapi crate that it calls
--   Sign/Structure     SigStructure of src/sign.rs
--   Sign/Message       CoseSign1 of src/sign.rs: its serde impls, as_bytes, from_bytes(_tagged)
--   Sign/Signing       new, new_with_protected, verify_signature and the getters of src/sign.rs
--   Sign/Session       programs over Sign/Signing: one key, and any sequence of its calls
--   Encrypt/Structure  EncStructure of src/encrypt.rs
--   Encrypt/Message    CoseEncrypt0 of src/encrypt.rs: its serde impls, as_bytes, from_bytes
--   Encrypt/Cipher     CoseEncrypt0::new, and how decrypt reads the two header maps
--   Encrypt/Decrypt    CoseEncrypt0::decrypt
--   Encrypt/Session    programs over Encrypt/Cipher: one key, and any sequence of calls of new
-- The modules below these hold their proofs: Total and Outcomes say how a function may end and Panics
-- when it panics, Accepts which signatures a key accepts, Sound that it accepts its own, Live that a
-- result is given unless a part fails, Created and Supported what a constructor makes. Prelude has the
-- shared names and lemmas, Outcome and Call the ways a function ends, with postconditions that no panic
-- meets (Outcome/Ensures), Serde the border to serde, and Tests a concrete format, keys and ciphers at
-- which the theorems are applied.
--
-- How the code is read. A function's result is an Outcome: Ok, Err, or a panic, which passes through
-- every caller. A call on an object with inner state (a key's TPM context, a KMS service, a random
-- generator) is a Call: it takes the state and gives it back with the result, also on an error. A
-- mutable buffer that a call fills is an argument and a part of the result. Bytes are natural numbers
-- in lists; an integer header is an integer, and the cast of an i128 to an i8 is written out.
--
-- Code that is not in the repository is a parameter. A Serialize impl is the item that its calls
-- describe, and a Deserialize impl a function of such an item; serde_cbor, serde_bytes and serde_with
-- turn items to bytes and back (Serde.Cbor), and their documented behaviour is Serde.Laws.CborLaws:
-- what was written is read back, no item is in an empty slice, tags and sequences are presented as
-- they stand, keys must be unique. That it does not panic is IsTotal; it may always fail, on reading and
-- on writing. The openssl and tss_esapi crates and the KMS service are records of functions; what a
-- theorem asks of them is a record that says so (EllipticCurvesLaws, IsUsable, IsServed, IsLocal,
-- IsAead, KeepsLength, DoNotPanic). For a key of any kind the messages rely on IsSound, and for a cipher
-- on IsInverse, of Crypto/Traits/Contracts; the theorems on each kind of key give it. A key of another
-- party is IsReader. An ideal signature scheme is IsIdeal of Crypto/Traits/Trace: over every history of
-- calls, the key accepts only digests that it signed in it. IsSound and IsIdeal are never asked of one
-- key together, since IsSound knows no history. An ideal cipher is IsIdealCipher of Encrypt/Session: it
-- opens only what it was given in the sender's history. A well-formed map is one whose keys rise
-- (IsSorted), as those of a BTreeMap do.
--
-- A program that uses the crate is a session (Sign/Session): the state of its key and the messages that
-- it has signed. Its events are the calls of new, new_with_protected, verify_signature and the two
-- getters, with any arguments; IsReachable is what sequences of them lead to. A sender of encrypted
-- messages has a History (Encrypt/Session): what its cipher was given, and what it sent.
--
-- Bounds. The one function on fuel prints a number in decimal for an error message: Error/Decimal
-- gives it a unit of fuel more than the number, and shows that more fuel prints the same. Subtractions
-- of lengths that the code leaves unchecked end in a panic where they would underflow.
--
-- Tests/Vectors has the documents of the crate's tests (src/sign.rs, src/encrypt.rs): they are read
-- with the concrete format, and the tests that make their keys are run at every sound key.
--
-- Not modelled: the text that libraries print for their errors (a parameter of Display), the Tokio
-- runtime of the KMS client, the feature switches (all are on), derived traits that no code of the
-- crate calls, the making of keys in the crate's tests and their runs on a TPM or KMS, and src/lib.rs,
-- which only re-exports.
pub mod Prelude
pub mod Outcome
pub mod Call
pub mod Error
pub mod OrderedMap
pub mod Serde
pub mod HeaderMap
pub mod Crypto
pub mod Sign
pub mod Encrypt
mod Tests
