-- ===== src/Encrypt.antt =====
-- src/encrypt.rs: COSE_Encrypt0 messages.
pub mod Structure
pub mod Message
pub mod Cipher
pub mod Decrypt
pub mod Session
