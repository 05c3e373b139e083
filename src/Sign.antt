-- ===== src/Sign.antt =====
-- src/sign.rs: COSE_Sign1 messages.
pub mod Structure
pub mod Message
pub mod Signing
pub mod Session
