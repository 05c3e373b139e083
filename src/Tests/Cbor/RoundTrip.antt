-- ===== src/Tests/Cbor/RoundTrip.antt =====
-- The decoder reads what the encoder wrote.
use aws_nitro_enclaves_cose.Prelude.{
  ℕ, zero, suc, ◌+◌, ◌*◌, ◌≤◌, pos, negsuc, Bytes, List, [], ◌∷◌, ◌++◌, some, ◌≡◌, refl, arith,
  length, append_assoc, append-nil, length-append, take-append, drop-append,
}
use aws_nitro_enclaves_cose.Serde.{Item, Items, bytes, str, entries, seq, tagged, other, nil, cons}
use aws_nitro_enclaves_cose.Crypto.Signature.Layout.{leb-true}
use aws_nitro_enclaves_cose.Tests.Value.{Value, int, blob}
use aws_nitro_enclaves_cose.Tests.Cbor.Heads.{
  unsigned, negative, byte_length, text_length, array_length, map_length, tag, simple_length,
  write_head, read_head-write_head, length-write_head_pos,
}
use aws_nitro_enclaves_cose.Tests.Cbor.{
  count, write_value, write_entries, write, write_items, read_raw, read_value, read_entries, read,
  read_items,
}

read_raw-append :
    {A : Type 0} (f : Bytes → A) (b rest : Bytes)
    → read_raw (length b) f (b ++ rest) ≡ some (f b, rest)
read_raw-append f b rest = rw (
  leb-true (length b) (length (b ++ rest)) (omega (arith, length-append b rest)),
  take-append b rest,
  drop-append b rest,
)

ruleset steps = (append_assoc, read_head-write_head)

read_value-write_value :
    (v : Value) (rest : Bytes) → read_value (write_value v ++ rest) ≡ some (v, rest)
unfolding read_value write_value
read_value-write_value (int (pos n)) rest = simp steps
read_value-write_value (int (negsuc n)) rest = simp steps
read_value-write_value (blob b) rest = simp steps (read_raw-append blob b rest)

read_entries-write_entries :
    (es : List (Value × Value)) (rest : Bytes)
    → read_entries (length es) (write_entries es ++ rest) ≡ some (es, rest)
unfolding read_entries write_entries
read_entries-write_entries [] rest = refl
read_entries-write_entries ((k, v) ∷ es) rest =
    simp (append_assoc, read_value-write_value, read_entries-write_entries es rest)

-- The items of an item, which bound the depth of the calls.
abbrev mutual
  size : Item Value → ℕ
  size (bytes b) = 1
  size (str b) = 1
  size (entries es) = 1
  size (seq is) = suc (size_items is)
  size (tagged t i) = suc (size i)
  size (other v) = 1

  size_items : Items Value → ℕ
  size_items nil = 1
  size_items (cons i is) = suc (size i + size_items is)

-- Fuel above nothing is a successor.
spend : (P : ℕ → Type 0) (n f : ℕ) → suc n ≤ f → ((g : ℕ) → n ≤ g → P (suc g)) → P f
spend P n zero h next = absurd (omega arith)
spend P n (suc f) h next = next f (omega arith)

abbrev Reads : Item Value → Bytes → ℕ → Type 0
Reads i rest f = read f (write i ++ rest) ≡ some (i, rest)

abbrev ReadsItems : Items Value → Bytes → ℕ → Type 0
ReadsItems is rest f = read_items f (count is) (write_items is ++ rest) ≡ some (is, rest)

mutual
  unfolding read write

  read-write : (i : Item Value) (f : ℕ) (rest : Bytes) → size i ≤ f → Reads i rest f
  read-write (bytes b) f rest h =
      spend (Reads (bytes b) rest) 0 f h λ g k. simp steps (read_raw-append bytes b rest)
  read-write (str b) f rest h =
      spend (Reads (str b) rest) 0 f h λ g k. simp steps (read_raw-append str b rest)
  read-write (entries es) f rest h =
      spend (Reads (entries es) rest) 0 f h λ g k. simp (steps, read_entries-write_entries es rest)
  read-write (seq is) f rest h =
      spend (Reads (seq is) rest) (size_items is) f h
        λ g k. simp (steps, read_items-write_items is g rest k)
  read-write (tagged t i) f rest h =
      spend (Reads (tagged t i) rest) (size i) f h λ g k. simp (steps, read-write i g rest k)
  read-write (other (int (pos n))) f rest h =
      spend (Reads (other (int (pos n))) rest) 0 f h λ g k. simp steps
  read-write (other (int (negsuc n))) f rest h =
      spend (Reads (other (int (negsuc n))) rest) 0 f h λ g k. simp steps
  read-write (other (blob b)) f rest h =
      spend (Reads (other (blob b)) rest) 0 f h
        λ g k. simp steps (read_raw-append (λ b. other (blob b)) b rest)

  read_items-write_items :
      (is : Items Value) (f : ℕ) (rest : Bytes) → size_items is ≤ f → ReadsItems is rest f
  read_items-write_items nil f rest h = spend (ReadsItems nil rest) 0 f h λ g k. refl
  read_items-write_items (cons i is) f rest h =
      spend (ReadsItems (cons i is) rest) (size i + size_items is) f h λ g k. simp (
        append_assoc,
        read-write i g (write_items is ++ rest) (omega arith),
        read_items-write_items is g rest (omega arith),
      )

mutual
  unfolding write

  size-le : (i : Item Value) → size i + 1 ≤ 3 * length (write i)
  size-le (bytes b) = omega (
    arith,
    length-append (write_head (byte_length (length b))) b,
    length-write_head_pos (byte_length (length b)),
  )
  size-le (str b) = omega (
    arith,
    length-append (write_head (text_length (length b))) b,
    length-write_head_pos (text_length (length b)),
  )
  size-le (entries es) = omega (
    arith,
    length-append (write_head (map_length (length es))) (write_entries es),
    length-write_head_pos (map_length (length es)),
  )
  size-le (seq is) = omega (
    arith,
    length-append (write_head (array_length (count is))) (write_items is),
    length-write_head_pos (array_length (count is)),
    size_items-le is,
  )
  size-le (tagged t i) = omega (
    arith,
    length-append (write_head (tag t)) (write i),
    length-write_head_pos (tag t),
    size-le i,
  )
  size-le (other (int (pos n))) = omega (arith, length-write_head_pos (unsigned n))
  size-le (other (int (negsuc n))) = omega (arith, length-write_head_pos (negative n))
  size-le (other (blob b)) = omega (
    arith,
    length-append (write_head (simple_length (length b))) b,
    length-write_head_pos (simple_length (length b)),
  )

  size_items-le : (is : Items Value) → size_items is ≤ 3 * length (write_items is) + 1
  size_items-le nil = omega arith
  size_items-le (cons i is) =
      omega (arith, length-append (write i) (write_items is), size-le i, size_items-le is)

-- A written item is read back, and nothing is left.
pub read-write_whole : (i : Item Value) → read (3 * length (write i)) (write i) ≡ some (i, [])
read-write_whole i =
    let size_fits = size-le i in
    rw append-nil at (read-write i (3 * length (write i)) [] (omega arith))
