-- ===== src/Base/Names.antt =====
-- Whole texts that the program only compares: names, keys, phases.
use Prim.Native.String.{String}
use mathlib.Core.Bool.{Bool}
use text.Mathlib.Text.{◌==◌}

abbrev pub str_eq : String → String → Bool
str_eq s t = s == t
