-- ===== src/Base/Text.antt =====
-- JavaScript strings as lists of UTF-16 code units, with the operations of `String` that the
-- program calls.
pub mod Trim
pub mod Shapes
use Prim.Native.Nat.{ℕ, suc, compare, Ordering}
use Prim.Native.Char.{Char, code}
use Prim.Native.String
use Prim.Native.String.{String}
use mathlib.Core.Bool.{Bool, true, false, ◌&&◌, ◌||◌, not}
use mathlib.Core.List.{List, [], ◌∷◌, ◌++◌}
use project_process_map.Base.Tests.{leb, nat_beq, if◌then◌else◌}

abbrev pub Text : Type 0
Text = List ℕ

-- The code units of a literal (all the literals of the program are ASCII).
abbrev pub text : String → Text
text String.[] = []
text (String.◌∷◌ c s) = code c ∷ text s

-- `s.length === 0`.
abbrev pub is_empty : Text → Bool
is_empty [] = true
is_empty (c ∷ s) = false

-- ECMAScript WhiteSpace and LineTerminator, the code units that `trim` strips.
unfoldable pub is_space : ℕ → Bool
is_space c =
    leb 9 c && leb c 13
    || nat_beq c 32
    || nat_beq c 160
    || nat_beq c 5760
    || leb 8192 c && leb c 8202
    || nat_beq c 8232
    || nat_beq c 8233
    || nat_beq c 8239
    || nat_beq c 8287
    || nat_beq c 12288
    || nat_beq c 65279

unfoldable pub trim_start : Text → Text
trim_start [] = []
trim_start (c ∷ s) = if is_space c then trim_start s else c ∷ s

unfoldable pub trim_end : Text → Text
trim_end [] = []
trim_end (c ∷ s) = let rest = trim_end s in if is_space c && is_empty rest then [] else c ∷ rest

-- `s.trim()`.
unfoldable pub trim : Text → Text
trim s = trim_end (trim_start s)

-- `s.trim().length === 0`.
abbrev pub is_blank : Text → Bool
is_blank s = is_empty (trim s)

-- `s.startsWith(prefix)`.
abbrev pub starts_with : Text → Text → Bool
starts_with s [] = true
starts_with [] (p ∷ ps) = false
starts_with (c ∷ s) (p ∷ ps) = nat_beq c p && starts_with s ps

-- `s.endsWith(unit)` for a suffix of one code unit.
abbrev pub ends_with_unit : ℕ → Text → Bool
ends_with_unit u [] = false
ends_with_unit u (c ∷ []) = nat_beq c u
ends_with_unit u (c ∷ d ∷ s) = ends_with_unit u (d ∷ s)

-- `a < b` on strings: by code units.
abbrev pub text_lt : Text → Text → Bool
text_lt s [] = false
text_lt [] (d ∷ t) = true
text_lt (c ∷ s) (d ∷ t) = elim (compare c d) [
  | Ordering.lt ↦ true
  | Ordering.eq ↦ text_lt s t
  | Ordering.gt ↦ false
]
