-- ===== src/Crypto.antt =====
-- src/crypto/mod.rs: the algorithms, and the traits that the messages are generic in.
pub mod Traits
pub mod Algorithms
pub mod Signature
pub mod Openssl
pub mod OpensslPkey
pub mod Kms
pub mod Tpm
pub mod Lengths
