-- ===== src/Examples/Roles.antt =====
-- Candidate lists and a binding of a role slot.
use project_process_map.Base.{
  ◌≡◌, refl, none, some, [], ◌∷◌, ◌==◌, All, Bool-cases, inl, inr, arith,
}
use project_process_map.Base.Equality.{list_eq, nat_eq}
use project_process_map.Base.Results.{ok}
use project_process_map.Base.Sets.{contains}
use project_process_map.Base.Text.{Text, text}
use project_process_map.Base.Text.Shapes.{IsCanonicalText}
use project_process_map.RoleSlots.{
  ProjectRoleBinding, RoleScope, normalize_candidate_ids, check_candidates, compare_exact_strings,
  assert_canonical_project_role_binding, assert_valid_slot_key,
}
use project_process_map.RoleSlots.Candidates.{normalized_accepted_iff}
use project_process_map.Examples.Clock.{clock, noon, text_tests}

abbrev ann : Text
ann = text "ann"

abbrev bob : Text
bob = text "bob"

same_members : (a : Text) → contains (bob ∷ ann ∷ bob ∷ []) a ≡ contains (ann ∷ bob ∷ []) a
same_members a = elim (Bool-cases (ann == a)) [
  | inl x ↦ elim (Bool-cases (bob == a)) [ inl y ↦ ground arith | inr y ↦ ground arith ]
  | inr x ↦ elim (Bool-cases (bob == a)) [ inl y ↦ ground arith | inr y ↦ ground arith ]
]

All-canonical : All IsCanonicalText (bob ∷ ann ∷ bob ∷ [])
unfolding text_tests
All-canonical = (
  record { trimmed = refl; filled = λ e. cc },
  (record { trimmed = refl; filled = λ e. cc }, (record { trimmed = refl; filled = λ e. cc }, tt)),
)

normalized_accepted_iff_example :
    check_candidates none (normalize_candidate_ids (bob ∷ ann ∷ bob ∷ [])) ≡ ok tt
normalized_accepted_iff_example = (normalized_accepted_iff (bob ∷ ann ∷ bob ∷ [])).1 All-canonical

abbrev scope : RoleScope
scope = record { tenant_id = some (text "t"); project_id = none; slot_key = some (text "lead") }

abbrev binding : ProjectRoleBinding
binding = record {
  tenant_id = text "t";
  project_id = text "p";
  slot_key = text "lead";
  principal_ids = ann ∷ bob ∷ [];
  version = 1;
  updated_at_utc = noon;
  updated_by_principal_id = ann;
}

binding_passes : assert_canonical_project_role_binding clock scope binding ≡ ok tt
unfolding assert_canonical_project_role_binding assert_valid_slot_key check_candidates
    compare_exact_strings text_tests
binding_passes = refl
