-- ===== src/Prelude/Texts.antt =====
-- Equality of texts as an instance.
use Prim.Native.String.{String}
use text.Mathlib.Text.{◌==◌ as str_eq}
use text.Mathlib.TextEquality.{eq_iff}
use external_toolchain_utils.Prelude.Equality.{Eq}

instance abbrev pub string_eq : Eq String
string_eq = record { beq = str_eq; beq_iff = eq_iff }
