-- ===== src/Tests/Witnesses.antt =====
-- The theorems on the components of src/, applied to concrete data.
mod Sign
mod Encrypt
mod Crypto
mod Headers
mod Sessions
mod Endings
mod Results
