-- ===== src/Examples/Clock.antt =====
-- A clock with two instants: what `Date.parse` and `toISOString` answer for them.
use project_process_map.Base.{◌≡◌, refl, true, none, some, if◌then◌else◌, ◌==◌, leb}
use project_process_map.Base.Equality.{list_eq, nat_eq}
use project_process_map.Base.Dates.{DateApi, is_utc}
use project_process_map.Base.Text.{Text, text, trim, trim_start, trim_end, is_space}
use project_process_map.Base.Text.Shapes.{is_padded_or_empty, is_key, is_key_unit, has_shape}
use project_process_map.Security.Access.{is_canonical_utc_timestamp}

abbrev pub noon : Text
noon = text "2026-03-01T12:00:00.000Z"

abbrev pub evening : Text
evening = text "2026-03-01T18:00:00.000Z"

abbrev pub clock : DateApi
clock = record {
  parse = λ s. if s == noon then some 43200000 else if s == evening then some 64800000 else none;
  to_iso_string = λ n. if leb n 43200000 then noon else evening;
}

-- The tests on texts, opened together.
unfoldable pub text_tests : Unit {0}
unfolding trim trim_start trim_end is_space is_padded_or_empty is_key is_key_unit has_shape is_utc
    is_canonical_utc_timestamp
text_tests = tt

pub noon_is_canonical : is_canonical_utc_timestamp clock noon ≡ true
unfolding text_tests
noon_is_canonical = refl

pub evening_is_canonical : is_canonical_utc_timestamp clock evening ≡ true
unfolding text_tests
evening_is_canonical = refl
