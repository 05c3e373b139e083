-- ===== src/Crypto/Signature.antt =====
-- The raw form of an ECDSA signature: `merge_ec_signature` of src/crypto/mod.rs, and the slice
-- operations by which it is put together and taken apart.
pub mod Layout
pub mod Panics
use aws_nitro_enclaves_cose.Prelude.{
  ℕ, zero, suc, ◌+◌, ◌-◌, ◌*◌, Bytes, Bool, true, false, [], ◌∷◌, ◌++◌, leb, if◌then◌else◌, length,
  take, drop, replicate,
}
use aws_nitro_enclaves_cose.Outcome.{Outcome, ok, panic, ◌>>=◌, ◌>>◌}

module _ {E : Type 0} where
  -- `assert!`
  abbrev pub assert : Bool → Outcome E (Unit {0})
  assert true = ok tt
  assert false = panic

  -- `slice::split_at`, which panics past the end.
  unfoldable pub split_at : ℕ → Bytes → Outcome E (Bytes × Bytes)
  split_at mid b = if leb mid (length b) then ok (take mid b, drop mid b) else panic

  -- `buffer[at..at + from.len()].copy_from_slice(from)`
  unfoldable pub copy_from_slice : Bytes → ℕ → Bytes → Outcome E Bytes
  copy_from_slice buffer at from =
      if leb (at + length from) (length buffer)
      then ok (take at buffer ++ (from ++ drop (at + length from) buffer))
      else panic

  unfoldable pub merge_ec_signature : Bytes → Bytes → ℕ → Outcome E Bytes
  unfolding copy_from_slice
  merge_ec_signature bytes_r bytes_s key_length = do
    assert (leb (length bytes_r) key_length)
    assert (leb (length bytes_s) key_length)
    let signature_bytes = replicate (key_length * 2) zero
    let offset_r = key_length - length bytes_r
    with_r ← copy_from_slice signature_bytes offset_r bytes_r
    let offset_s = key_length - length bytes_s + key_length
    copy_from_slice with_r offset_s bytes_s
