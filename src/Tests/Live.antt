-- ===== src/Tests/Live.antt =====
-- Keys and a cipher that do not panic and keep their promises, and header bytes whose entries come in
-- two orders.
use aws_nitro_enclaves_cose.Prelude.{
  ℕ, ◌+◌, String, Bytes, true, [], ◌∷◌, ◌≡◌, refl, sym, ap, pos, negsuc, length, length-replicate,
}
use aws_nitro_enclaves_cose.Outcome.{ok, ok-injective}
use aws_nitro_enclaves_cose.Outcome.Ensures.{returns}
use aws_nitro_enclaves_cose.OrderedMap
use aws_nitro_enclaves_cose.OrderedMap.Entries.{insert_all}
use aws_nitro_enclaves_cose.HeaderMap
use aws_nitro_enclaves_cose.HeaderMap.{HeaderMap}
use aws_nitro_enclaves_cose.Serde.{entries}
use aws_nitro_enclaves_cose.Crypto.Algorithms.{es256, sha256}
use aws_nitro_enclaves_cose.Crypto.Traits.{SigningPrivateKey}
use aws_nitro_enclaves_cose.Crypto.Traits.Contracts.{IsSound}
use aws_nitro_enclaves_cose.Crypto.OpensslPkey.Panics.{IsTotal}
use aws_nitro_enclaves_cose.Encrypt.Decrypt.Live.{DoNotPanic}
use aws_nitro_enclaves_cose.Encrypt.Decrypt.Sizes.{KeepsLength}
use aws_nitro_enclaves_cose.Tests.Value.{Value, int}
use aws_nitro_enclaves_cose.Tests.Cbor.{read, read_entries, read_value}
use aws_nitro_enclaves_cose.Tests.Cbor.Heads.{read_head}
use aws_nitro_enclaves_cose.Tests.Format.{format}
use aws_nitro_enclaves_cose.Tests.Keys.{curves, clear_encryption, zeros}

pub curves-IsTotal : IsTotal curves
curves-IsTotal = record {
  bn_from_slice-Total = λ b. returns tt;
  from_private_components-Total = λ r s. returns tt;
  to_der-Total = λ g. returns tt;
  ecdsa_verify-Total = λ g d key. returns tt;
}

-- A key that signs by the digest's length, and accepts such signatures.
abbrev pub plain_key : SigningPrivateKey String ℕ
plain_key = record {
  public_key = record {
    get_parameters = λ k. (ok (es256, sha256), k);
    verify = λ d s k. (ok true, k);
  };
  sign = λ d k. (ok (length d ∷ []), k + 1);
}

pub plain_key-IsSound : IsSound plain_key
plain_key-IsSound = record {
  algorithm = es256;
  digest = sha256;
  get_parameters-eq = λ k. refl;
  verify-sign = λ d s k k' e. refl;
}

pub clear-DoNotPanic : DoNotPanic zeros clear_encryption
clear-DoNotPanic = record {
  rand_bytes-Total = λ b w. returns tt;
  length-rand_bytes = λ buffer iv w e. ap length (sym (ok-injective e));
  encrypt_aead-Total = λ alg key iv aad text buffer fits drawn. returns tt;
}

pub clear-KeepsLength : KeepsLength zeros clear_encryption
clear-KeepsLength = record {
  length-rand_bytes = λ buffer iv w e. ap length (sym (ok-injective e));
  length-text = λ a key iv aad text buffer ciphertext tag e.
      ap (λ (p : Bytes × Bytes). length p.0) (sym (ok-injective e));
  length-tag = λ a key iv aad text buffer ciphertext tag e.
      rw (← ap (λ (p : Bytes × Bytes). p.1) (ok-injective e)) (length-replicate (length buffer) 7);
}

-- The entries 1: -7 and 3: 2, and the other way round.
abbrev pub two_entries : HeaderMap Value
two_entries = (int (pos 1), int (negsuc 6)) ∷ (int (pos 3), int (pos 2)) ∷ []

abbrev pub entries_turned : HeaderMap Value
entries_turned = (int (pos 3), int (pos 2)) ∷ (int (pos 1), int (negsuc 6)) ∷ []

abbrev pub two_bytes : Bytes
two_bytes = 0xa2 ∷ 1 ∷ 0x26 ∷ 3 ∷ 2 ∷ []

abbrev pub turned_bytes : Bytes
turned_bytes = 0xa2 ∷ 3 ∷ 2 ∷ 1 ∷ 0x26 ∷ []

pub two_sliced : format.from_slice two_bytes ≡ ok (entries two_entries)
unfolding read read_head read_entries read_value
two_sliced = refl

pub turned_sliced : format.from_slice turned_bytes ≡ ok (entries entries_turned)
unfolding read read_head read_entries read_value
turned_sliced = refl

pub two_read : HeaderMap.from_bytes format two_bytes ≡ ok two_entries
unfolding HeaderMap.from_bytes HeaderMap.deserialize insert_all OrderedMap.insert read read_head
    read_entries read_value
two_read = refl
