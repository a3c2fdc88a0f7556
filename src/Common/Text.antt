-- ===== src/Common/Text.antt =====
-- The operations on `str` that the code uses, over the native texts.

use Prim.Native.Char.{Char, code}
use Prim.Native.String.{String, [], ◌∷◌, ◌++◌}
use mathlib.Core.Bool.{Bool, true, false, ◌&&◌, ◌||◌}
use ai_factory_lab.Common.Tests.{nat_beq, leb, if◌then◌else◌}

-- `a + b`
unfoldable pub join : String → String → String
join a b = a ++ b

is_empty : String → Bool
is_empty [] = true
is_empty (c ∷ s) = false

-- `s.rstrip("/")` for `drop` the test of that character
unfoldable pub strip_right : (Char → Bool) → String → String
unfolding is_empty
strip_right drop [] = []
strip_right drop (c ∷ s) =
    let rest = strip_right drop s in if drop c && is_empty rest then [] else c ∷ rest

-- the ASCII characters that `str.strip` takes away
is_space : Char → Bool
is_space c =
    nat_beq (code c) 32
    || (leb 9 (code c) && leb (code c) 13)
    || (leb 28 (code c) && leb (code c) 31)

-- `not s.strip()`
unfoldable pub is_blank : String → Bool
unfolding is_space
is_blank [] = true
is_blank (c ∷ s) = is_space c && is_blank s

-- `s.startswith(prefix)`, the prefix first
unfoldable pub starts_with : String → String → Bool
starts_with [] s = true
starts_with (c ∷ p) [] = false
starts_with (c ∷ p) (d ∷ s) = nat_beq (code c) (code d) && starts_with p s
