-- ===== src/Base/Text/Trim.antt =====
-- `trim` strips once for all: a trimmed text is its own trim.
use mathlib.Core.Path.{◌≡◌, refl, ap, ◌∙◌}
use mathlib.Core.Logic.{inl, inr}
use mathlib.Core.Bool.{false, ◌&&◌}
use mathlib.Core.List.{[], ◌∷◌}
use project_process_map.Base.Tests.{Bool-cases}
use project_process_map.Base.Text.{Text, is_space, is_empty, trim_start, trim_end, trim}

-- The first unit is no space.
abbrev HasNoLead : Text → Type 0
HasNoLead [] = Unit
HasNoLead (c ∷ s) = is_space c ≡ false

trim_start-HasNoLead : (s : Text) → HasNoLead (trim_start s)
unfolding trim_start
trim_start-HasNoLead [] = tt
trim_start-HasNoLead (c ∷ s) = elim (Bool-cases (is_space c)) [
  | inl h ↦ rw h (trim_start-HasNoLead s)
  | inr h ↦ rw h h
]

trim_start_of : (s : Text) → HasNoLead s → trim_start s ≡ s
unfolding trim_start
trim_start_of [] h = refl
trim_start_of (c ∷ s) h = rw h

trim_end-HasNoLead : (s : Text) → HasNoLead s → HasNoLead (trim_end s)
unfolding trim_end
trim_end-HasNoLead [] h = tt
trim_end-HasNoLead (c ∷ s) h = rw h h

trim_end_again :
    (c : _) (r : Text)
    → trim_end r ≡ r
    → (is_space c && is_empty r) ≡ false
    → trim_end (c ∷ r) ≡ c ∷ r
unfolding trim_end
trim_end_again c r e h = rw (e, h)

trim_end_idempotent : (s : Text) → trim_end (trim_end s) ≡ trim_end s
unfolding trim_end
trim_end_idempotent [] = refl
trim_end_idempotent (c ∷ s) = elim (Bool-cases (is_space c && is_empty (trim_end s))) [
  | inl h ↦ rw h
  | inr h ↦ rw h (trim_end_again c (trim_end s) (trim_end_idempotent s) h)
]

pub trim_idempotent : (s : Text) → trim (trim s) ≡ trim s
unfolding trim
trim_idempotent s =
    ap trim_end
      (trim_start_of (trim_end (trim_start s)) (trim_end-HasNoLead _ (trim_start-HasNoLead s)))
    ∙ trim_end_idempotent (trim_start s)
