-- ===== src/Base/Dates.antt =====
-- The two functions of JavaScript's `Date` that the program calls. `Date.parse` is defined by the
-- implementation outside of the ISO format, so the pair is a parameter of the model. A time value
-- is counted from the least one, so that it is a natural number.
use Prim.Native.Nat.{ℕ}
use mathlib.Core.Bool.{Bool, ◌&&◌}
use mathlib.Core.Option.{Option, none, some}
use mathlib.Core.Bool.{true, false}
use project_process_map.Base.Text.{Text, ends_with_unit}

pub record DateApi : Type 0 where
  pub parse : Text → Option ℕ  -- `none` is NaN
  pub to_iso_string : ℕ → Text

-- `value.endsWith("Z") && !Number.isNaN(Date.parse(value))`
abbrev pub is_some {ℓ} : {A : Type ℓ} → Option A → Bool
is_some none = false
is_some (some a) = true

unfoldable pub is_utc : DateApi → Text → Bool
is_utc d value = ends_with_unit b'Z' value && is_some (d.parse value)
