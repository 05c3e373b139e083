-- ===== src/Tests/Format.antt =====
-- The test format as the interface of serde, with its laws.
use Prim.Native.Nat.Ordering.{lt, eq, gt}
use aws_nitro_enclaves_cose.Prelude.{
  ℕ, ◌*◌, Bytes, String, Bool, true, false, ◌&&◌, List, [], ◌∷◌, Option, none, some, ◌≡◌, refl,
  length, arith, Option-cases, Bool-cases, inl, inr, if◌then◌else◌,
}
use aws_nitro_enclaves_cose.Outcome.{Outcome, ok, err, ok-injective}
use aws_nitro_enclaves_cose.Outcome.Ensures.{Total, returns, throws}
use aws_nitro_enclaves_cose.OrderedMap.{OrderedMap}
use aws_nitro_enclaves_cose.OrderedMap.Entries.{Absent, HasUniqueKeys, insert_all}
use aws_nitro_enclaves_cose.Serde.{
  Item, Items, Cbor, bytes, str, other, entries, seq, tagged, nil, cons,
}
use aws_nitro_enclaves_cose.Serde.Laws.{CborLaws, IsTotal, SameLength}
use aws_nitro_enclaves_cose.Tests.Value.{Value, int, blob, view, cmp, cmp-IsLawful}
use aws_nitro_enclaves_cose.Tests.Cbor.{write, write_value, read, is_writable}
use aws_nitro_enclaves_cose.Tests.Cbor.RoundTrip.{read-write_whole}

abbrev is_absent : Value → List (Value × Value) → Bool
is_absent k [] = true
is_absent k ((j, v) ∷ es) =
    let later = is_absent k es in elim (cmp k j) [ lt ↦ later | eq ↦ false | gt ↦ later ]

abbrev has_unique_keys : List (Value × Value) → Bool
has_unique_keys [] = true
has_unique_keys ((k, v) ∷ es) = is_absent k es && has_unique_keys es

is_absent_of : (k : Value) (es : List (Value × Value)) → Absent cmp k es → is_absent k es ≡ true
is_absent_of k [] a = refl
is_absent_of k ((j, v) ∷ es) (n, a) = ground (arith, is_absent_of k es a)

Absent-of : (k : Value) (es : List (Value × Value)) → is_absent k es ≡ true → Absent cmp k es
Absent-of k [] h = tt
Absent-of k ((j, v) ∷ es) h = (λ e. ground arith, Absent-of k es (ground arith))

has_unique_keys_of : (es : List (Value × Value)) → HasUniqueKeys cmp es → has_unique_keys es ≡ true
has_unique_keys_of [] h = refl
has_unique_keys_of ((k, v) ∷ es) (a, h) =
    ground (arith, is_absent_of k es a, has_unique_keys_of es h)

HasUniqueKeys-of : (es : List (Value × Value)) → has_unique_keys es ≡ true → HasUniqueKeys cmp es
HasUniqueKeys-of [] h = tt
HasUniqueKeys-of ((k, v) ∷ es) h =
    (Absent-of k es (ground arith), HasUniqueKeys-of es (ground arith))

abbrev from_slice : Bytes → Outcome String (Item Value)
from_slice b = elim (read (3 * length b) b) [
  | some (i, []) ↦ ok i
  | some (i, (x ∷ rest)) ↦ err "trailing data"
  | none ↦ err "end of file"
]

abbrev untag : Item Value → Option ℕ × Item Value
untag (tagged t i) = (some t, i)
untag i = (none, i)

abbrev byte_buf : Item Value → Outcome String Bytes
byte_buf (bytes b) = ok b
byte_buf _ = err "expected bytes"

abbrev unique_map : Item Value → Outcome String (OrderedMap Value Value)
unique_map (entries es) =
    if has_unique_keys es then ok (insert_all cmp es []) else err "duplicate key"
unique_map _ = err "expected a map"

abbrev same_length : List String → Items Value → Bool
same_length [] nil = true
same_length [] (cons i is) = false
same_length (n ∷ ns) nil = false
same_length (n ∷ ns) (cons i is) = same_length ns is

abbrev struct_fields : List String → Item Value → Outcome String (Items Value)
struct_fields names (seq is) = if same_length names is then ok is else err "invalid length"
struct_fields names _ = err "expected a struct"

abbrev end_seq : Items Value → Outcome String (Unit {0})
end_seq nil = ok tt
end_seq (cons i is) = err "trailing data"

abbrev to_vec : Item Value → Outcome String Bytes
to_vec i = if is_writable i then ok (write i) else err "not writable"

abbrev pub format : Cbor String Value
format = record {
  of_integer = int;
  of_bytes = blob;
  view = view;
  cmp = cmp;
  to_vec = to_vec;
  value_to_vec = λ v. ok (write_value v);
  from_slice = from_slice;
  untag = untag;
  byte_buf = byte_buf;
  unique_map = unique_map;
  struct_fields = struct_fields;
  end_seq = end_seq;
  missing_field = λ name. name;
  invalid_type = λ i expected. expected;
}

same_length_of : (ns : List String) (is : Items Value) → SameLength ns is → same_length ns is ≡ true
same_length_of [] nil h = refl
same_length_of [] (cons i is) h = absurd h
same_length_of (n ∷ ns) nil h = absurd h
same_length_of (n ∷ ns) (cons i is) h = same_length_of ns is h

from_slice-write : (i : Item Value) → from_slice (write i) ≡ ok i
from_slice-write i = rw (read-write_whole i, from_slice)

from_slice-to_vec : (i : Item Value) (b : Bytes) → to_vec i ≡ ok b → from_slice b ≡ ok i
from_slice-to_vec i b h = elim (Bool-cases (is_writable i)) [
  | inl writable ↦
      let same : ok (write i) ≡ ok b = (rw (to_vec, writable) at h) in
      rw (← ok-injective same) (from_slice-write i)
  | inr refused ↦
      let never : ◌≡◌ {A = Outcome String Bytes} (err "not writable") (ok b) =
        (rw (to_vec, refused) at h) in
      cc
]

unique_map_unique :
    (es m : OrderedMap Value Value) → unique_map (entries es) ≡ ok m → HasUniqueKeys cmp es
unique_map_unique es m h = HasUniqueKeys-of es (ground arith)

end_seq-eq-ok : (is : Items Value) → end_seq is ≡ ok tt → is ≡ nil
end_seq-eq-ok is h = ground arith

pub format-CborLaws : CborLaws format
unfolding read
format-CborLaws = record {
  view-of_integer = λ z. refl;
  view-of_bytes = λ b. refl;
  ordered = cmp-IsLawful;
  from_slice-to_vec = from_slice-to_vec;
  from_slice-nil = ("end of file", refl);
  untag-tagged = λ t i. refl;
  untag-seq = λ is. refl;
  byte_buf-bytes = λ b. refl;
  unique_map-entries = λ es h. rw (has_unique_keys_of es h);
  unique_map_unique = unique_map_unique;
  struct_fields-seq = λ names is h. rw (same_length_of names is h);
  end_seq-nil = refl;
  end_seq-eq-ok = end_seq-eq-ok;
}

from_slice-Total : (b : Bytes) → Total (from_slice b)
from_slice-Total b = elim (Option-cases (read (3 * length b) b)) [
  | inl absent ↦ rw (from_slice, absent) (throws tt)
  | inr ((i, []), e) ↦ rw (from_slice, e) (returns tt)
  | inr ((i, (x ∷ rest)), e) ↦ rw (from_slice, e) (throws tt)
]

byte_buf-Total : (i : Item Value) → Total (byte_buf i)
byte_buf-Total (bytes b) = returns tt
byte_buf-Total (seq is) = throws tt
byte_buf-Total (tagged t i) = throws tt
byte_buf-Total (str b) = throws tt
byte_buf-Total (entries es) = throws tt
byte_buf-Total (other v) = throws tt

if-Total :
    {A : Type 0} (b : Bool) (a : A) (e : String) → Total {E = String} (if b then ok a else err e)
if-Total true a e = returns tt
if-Total false a e = throws tt

unique_map-Total : (i : Item Value) → Total (unique_map i)
unique_map-Total (entries es) = if-Total (has_unique_keys es) (insert_all cmp es []) "duplicate key"
unique_map-Total (seq is) = throws tt
unique_map-Total (bytes b) = throws tt
unique_map-Total (tagged t i) = throws tt
unique_map-Total (str b) = throws tt
unique_map-Total (other v) = throws tt

struct_fields-Total : (names : List String) (i : Item Value) → Total (struct_fields names i)
struct_fields-Total names (seq is) = if-Total (same_length names is) is "invalid length"
struct_fields-Total names (entries es) = throws tt
struct_fields-Total names (bytes b) = throws tt
struct_fields-Total names (tagged t i) = throws tt
struct_fields-Total names (str b) = throws tt
struct_fields-Total names (other v) = throws tt

end_seq-Total : (is : Items Value) → Total (end_seq is)
end_seq-Total nil = returns tt
end_seq-Total (cons i is) = throws tt

pub format-IsTotal : IsTotal format
format-IsTotal = record {
  to_vec-Total = λ i. if-Total (is_writable i) (write i) "not writable";
  from_slice-Total = from_slice-Total;
  byte_buf-Total = byte_buf-Total;
  unique_map-Total = unique_map-Total;
  struct_fields-Total = struct_fields-Total;
  end_seq-Total = end_seq-Total;
}
