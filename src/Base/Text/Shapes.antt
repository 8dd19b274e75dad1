-- ===== src/Base/Text/Shapes.antt =====
-- The regular expressions of the program, and its identifiers.
use Prim.Native.Nat.{ℕ}
use mathlib.Core.Path.{◌≡◌, refl}
use mathlib.Core.Logic.{◌↔◌, ◌≢◌}
use mathlib.Core.Bool.{Bool, true, false, ◌&&◌, ◌||◌}
use mathlib.Core.List.{[], ◌∷◌}
use native.Mathlib.Omega.{arith}
use project_process_map.Base.Tests.{if◌then◌else◌, leb, nat_beq, or_false}
use project_process_map.Base.Lists.{length, all}
use project_process_map.Base.Equality.{◌!=◌, list_eq, nat_eq, eq_of, eq_refl}
use project_process_map.Base.Text.{Text, is_empty, trim}

pub is_digit : ℕ → Bool
is_digit c = leb b'0' c && leb c b'9'

-- A text of a fixed shape: `d` stands for a digit and any other unit for itself.
unfoldable pub has_shape : Text → Text → Bool
unfolding is_digit
has_shape [] [] = true
has_shape [] (c ∷ s) = false
has_shape (p ∷ ps) [] = false
has_shape (p ∷ ps) (c ∷ s) = (if nat_beq p b'd' then is_digit c else nat_beq p c) && has_shape ps s

-- `[a-zA-Z0-9_-]`
unfoldable pub is_key_unit : ℕ → Bool
is_key_unit c =
    leb b'a' c && leb c b'z'
    || leb b'A' c && leb c b'Z'
    || leb b'0' c && leb c b'9'
    || nat_beq c b'_'
    || nat_beq c b'-'

-- `/^[a-zA-Z0-9_-]{1,64}$/`
unfoldable pub is_key : Text → Bool
is_key s = leb 1 (length s) && leb (length s) 64 && all is_key_unit s

-- `s.trim() !== s || s.length === 0`: not an identifier in canonical form.
unfoldable pub is_padded_or_empty : Text → Bool
is_padded_or_empty s = trim s != s || is_empty s

-- Not empty, and with no space at either end.
pub record IsCanonicalText (s : Text) : Type 0 where
  pub trimmed : trim s ≡ s
  pub filled : s ≢ []

pub IsCanonicalText-iff : (s : Text) → (is_padded_or_empty s ≡ false) ↔ IsCanonicalText s
unfolding is_padded_or_empty
IsCanonicalText-iff s = (there s, back s)
  where
    there : (s : Text) → (trim s != s || is_empty s) ≡ false → IsCanonicalText s
    there [] h =
        let bad : true ≡ false = (or_false (trim [] != []) true h).1 in
        let never : ⊥ = cc in absurd never
    there (c ∷ s) h = record {
      trimmed = eq_of (trim (c ∷ s)) (c ∷ s) (ground arith);
      filled = λ e. cc;
    }

    back : (s : Text) → IsCanonicalText s → (trim s != s || is_empty s) ≡ false
    back [] h = absurd (h.filled refl)
    back (c ∷ s) h = rw (h.trimmed) (ground (arith, eq_refl (c ∷ s)))
