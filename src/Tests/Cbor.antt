-- ===== src/Tests/Cbor.antt =====
-- The encoding of CBOR, for lengths, tags and integers below 256, and its decoder.
pub mod Heads
pub mod RoundTrip
use aws_nitro_enclaves_cose.Prelude.{
  ℕ, zero, suc, ◌*◌, ℤ, pos, negsuc, Bytes, List, [], ◌∷◌, ◌++◌, Option, some, none, leb, ltb, Bool,
  true, false, ◌&&◌, length, take, drop, if◌then◌else◌,
}
use aws_nitro_enclaves_cose.Serde.{Item, Items, bytes, str, entries, seq, tagged, other, nil, cons}
use aws_nitro_enclaves_cose.Tests.Value.{Value, int, blob}
use aws_nitro_enclaves_cose.Tests.Cbor.Heads.{
  Head, unsigned, negative, byte_length, text_length, array_length, map_length, tag, simple_length,
  write_head, read_head,
}

abbrev pub count : Items Value → ℕ
count nil = 0
count (cons i is) = suc (count is)

unfoldable pub write_value : Value → Bytes
write_value (int (pos n)) = write_head (unsigned n)
write_value (int (negsuc n)) = write_head (negative n)
write_value (blob b) = write_head (byte_length (length b)) ++ b

unfoldable pub write_entries : List (Value × Value) → Bytes
write_entries [] = []
write_entries ((k, v) ∷ es) = write_value k ++ (write_value v ++ write_entries es)

unfoldable mutual
  pub write : Item Value → Bytes
  write (bytes b) = write_head (byte_length (length b)) ++ b
  write (str b) = write_head (text_length (length b)) ++ b
  write (entries es) = write_head (map_length (length es)) ++ write_entries es
  write (seq is) = write_head (array_length (count is)) ++ write_items is
  write (tagged t i) = write_head (tag t) ++ write i
  write (other (int (pos n))) = write_head (unsigned n)
  write (other (int (negsuc n))) = write_head (negative n)
  write (other (blob b)) = write_head (simple_length (length b)) ++ b

  pub write_items : Items Value → Bytes
  write_items nil = []
  write_items (cons i is) = write i ++ write_items is

-- What can be written: numbers and lengths that fit in one byte. A byte string that is a value is
-- written like any byte string, so that as an item of its own kind it is refused.
abbrev is_short : Value → Bool
is_short (int (pos n)) = ltb n 256
is_short (int (negsuc n)) = ltb n 256
is_short (blob b) = ltb (length b) 256

abbrev are_short : List (Value × Value) → Bool
are_short [] = true
are_short ((k, v) ∷ es) = is_short k && is_short v && are_short es

abbrev mutual
  pub is_writable : Item Value → Bool
  is_writable (bytes b) = ltb (length b) 256
  is_writable (str b) = ltb (length b) 256
  is_writable (entries es) = ltb (length es) 256 && are_short es
  is_writable (seq is) = ltb (count is) 256 && are_writable is
  is_writable (tagged t i) = ltb t 256 && is_writable i
  is_writable (other (int z)) = is_short (int z)
  is_writable (other (blob b)) = false

  are_writable : Items Value → Bool
  are_writable nil = true
  are_writable (cons i is) = is_writable i && are_writable is

-- Readers give what they read and the bytes that are left.
abbrev pub Reader : Type 0 → Type 0
Reader A = Bytes → Option (A × Bytes)

infixl 5 ◌>>=◌
abbrev pub ◌>>=◌ : {A B : Type 0} → Option (A × Bytes) → (A → Reader B) → Option (B × Bytes)
none >>= f = none
some (a, b) >>= f = f a b

abbrev pub read_raw : {A : Type 0} → ℕ → (Bytes → A) → Reader A
read_raw n f b = if leb n (length b) then some (f (take n b), drop n b) else none

abbrev pub read_value_of : Head → Reader Value
read_value_of (unsigned n) b = some (int (pos n), b)
read_value_of (negative n) b = some (int (negsuc n), b)
read_value_of (byte_length n) b = read_raw n blob b
read_value_of _ b = none

unfoldable pub read_value : Reader Value
read_value b = read_head b >>= read_value_of

unfoldable pub read_entries : ℕ → Reader (List (Value × Value))
read_entries zero b = some ([], b)
read_entries (suc n) b = read_value b >>= λ k b₁.
    read_value b₁ >>= λ v b₂. read_entries n b₂ >>= λ es b₃. some ((k, v) ∷ es, b₃)

unfoldable mutual
  pub read : ℕ → Reader (Item Value)
  read zero b = none
  read (suc f) b = read_head b >>= λ h rest. elim h [
    | unsigned n ↦ some (other (int (pos n)), rest)
    | negative n ↦ some (other (int (negsuc n)), rest)
    | byte_length n ↦ read_raw n bytes rest
    | text_length n ↦ read_raw n str rest
    | array_length n ↦ read_items f n rest >>= λ is left. some (seq is, left)
    | map_length n ↦ read_entries n rest >>= λ es left. some (entries es, left)
    | tag t ↦ read f rest >>= λ i left. some (tagged t i, left)
    | simple_length n ↦ read_raw n (λ b. other (blob b)) rest
  ]

  pub read_items : ℕ → ℕ → Reader (Items Value)
  read_items zero n b = none
  read_items (suc f) zero b = some (nil, b)
  read_items (suc f) (suc n) b =
      read f b >>= λ i rest. read_items f n rest >>= λ is left. some (cons i is, left)
