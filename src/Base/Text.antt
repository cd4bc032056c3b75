-- ===== src/Base/Text.antt =====
-- The bytes of an ASCII literal, `b"..."`.
use Prim.Native.Char.{code}
use Prim.Native.String.{String}
use mathlib.Core.List.{[], ◌∷◌}
use lighter_integration.Base.ByteStrings.{Bytes}

abbrev pub codes : String → Bytes
codes String.[] = []
codes (String.◌∷◌ c s) = code c ∷ codes s
