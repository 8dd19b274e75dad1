-- ===== src/Examples/Reviewers.antt =====
-- A task whose reviewer comes from a role slot.
use project_process_map.Base.{◌≡◌, refl, none, some, [], ◌∷◌}
use project_process_map.Base.Order.{insert, sort}
use project_process_map.Base.Results.{ok}
use project_process_map.Base.Text.{text}
use project_process_map.RoleSlots.{TemplateRoleSlot, ProjectRoleBinding}
use project_process_map.Access.{can_access_project_object}
use project_process_map.Security.Access.{grant_allows}
use project_process_map.Reviewers.{
  ReviewTables, ResolveTaskReviewerParams, role_slot, ResolvedReviewer, is_candidate_eligible,
  from_slot, from_role, resolve_explicit, resolve_task_reviewer,
}
use project_process_map.Reviewers.Choice.{IsChosen, resolved-IsChosen}
use project_process_map.Examples.Clock.{clock, noon, text_tests}
use project_process_map.Examples.Access.{store, branch}

abbrev slot : TemplateRoleSlot
slot = record {
  tenant_id = text "t";
  project_id = text "p";
  slot_key = text "lead";
  source_template_version_id = text "v";
  name = text "Lead";
  description = none;
  created_at_utc = noon;
}

abbrev binding : ProjectRoleBinding
binding = record {
  tenant_id = text "t";
  project_id = text "p";
  slot_key = text "lead";
  principal_ids = text "zoe" ∷ text "ann" ∷ [];
  version = 1;
  updated_at_utc = noon;
  updated_by_principal_id = text "ann";
}

abbrev tables : ReviewTables
tables = record {
  directory = store;
  role_slots = λ project key. some slot;
  role_bindings = λ project key. some binding;
}

abbrev params : ResolveTaskReviewerParams
params = record {
  tenant_id = text "t";
  project_id = text "p";
  node = branch;
  explicit_reviewer_principal_id = none;
  reviewer_role_slot_key = some (text "lead");
  authorization_at_utc = noon;
}

abbrev chosen : ResolvedReviewer
chosen = record { reviewer_principal_id = text "ann"; source = role_slot }

resolved : resolve_task_reviewer clock tables params ≡ ok chosen
unfolding resolve_task_reviewer resolve_explicit from_role from_slot is_candidate_eligible sort
    insert can_access_project_object grant_allows text_tests
resolved = refl

resolved-IsChosen_example : IsChosen clock tables params chosen
resolved-IsChosen_example = resolved-IsChosen clock tables params chosen resolved
