-- ===== src/Crypto/Openssl.antt =====
-- src/crypto/openssl.rs: the OpenSSL provider, over the calls of the openssl crate.
pub mod Library
pub mod Provider
pub mod Sound
