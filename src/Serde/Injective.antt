-- ===== src/Serde/Injective.antt =====
-- A format that reads back what it writes gives different items different bytes.
use aws_nitro_enclaves_cose.Prelude.{Bytes, ◌≡◌, sym, ◌∙◌}
use aws_nitro_enclaves_cose.Outcome.{ok, ok-injective}
use aws_nitro_enclaves_cose.Serde.{Cbor, Item}
use aws_nitro_enclaves_cose.Serde.Laws.{CborLaws}

pub to_vec-injective :
    {X V : Type 0} (c : Cbor X V) (L : CborLaws c) (i j : Item V) (b : Bytes)
    → c.to_vec i ≡ ok b
    → c.to_vec j ≡ ok b
    → i ≡ j
to_vec-injective c L i j b e f =
    ok-injective (sym (L.from_slice-to_vec i b e) ∙ L.from_slice-to_vec j b f)
