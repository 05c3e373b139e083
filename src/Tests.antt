-- ===== src/Tests.antt =====
-- A concrete format, concrete keys and a concrete cipher, at which the theorems are applied, and
-- runs on the data of the tests in src/sign.rs.
pub mod Value
pub mod Cbor
pub mod Format
pub mod Keys
pub mod Services
pub mod Signed
pub mod Ledger
pub mod Sealed
pub mod Vectors
pub mod Live
pub mod KmsSigned
pub mod Witnesses
pub mod Variants
pub mod Encrypted
