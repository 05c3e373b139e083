-- ===== src/Error/Reading.antt =====
-- The errors of src/error.rs that a reader of a message may give.
use aws_nitro_enclaves_cose.Prelude.{ℕ, some, ◌≢◌}
use aws_nitro_enclaves_cose.Error.{CoseError, serialization_error, tag_error}

-- The errors of a reader that wants the tag `t`: of the format, or a tag that is another.
abbrev pub IsReadError : {X : Type 0} → ℕ → CoseError X → Type 0
IsReadError t (serialization_error x) = Unit
IsReadError t (tag_error (some u)) = u ≢ t
IsReadError t _ = ⊥
