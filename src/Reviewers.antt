-- ===== src/Reviewers.antt =====
-- packages/application/src/tasks/resolve-task-reviewer.ts: who reviews a new task.
pub mod Least
pub mod Choice
use project_process_map.Base.{
  Option, none, some, List, [], ◌∷◌, Bool, true, false, not, ◌&&◌, ◌==◌, if◌then◌else◌,
}
use project_process_map.Base.Equality.{list_eq, nat_eq}
use project_process_map.Base.Results.{Result, ok, err, ◌>>◌, throw_if}
use project_process_map.Base.Dates.{DateApi}
use project_process_map.Base.Order.{sort}
use project_process_map.Base.Tables.{get}
use project_process_map.Base.Text.{Text}
use project_process_map.Base.Text.Shapes.{is_key}
use project_process_map.Projects.{Principal, user, kind_eq, ProjectMembership, ProjectNode}
use project_process_map.Security.Access.{view, active, status_eq}
use project_process_map.RoleSlots.{TemplateRoleSlot, ProjectRoleBinding}
use project_process_map.Store.{Directory, keep}
use project_process_map.Access.{can_access_project_object}

-- The tables that the choice reads: those of the access rules, the slots and their bindings.
pub record ReviewTables : Type 0 where
  pub directory : Directory
  pub role_slots : Text → Text → Option TemplateRoleSlot
  pub role_bindings : Text → Text → Option ProjectRoleBinding

pub record ResolveTaskReviewerParams : Type 0 where
  pub tenant_id : Text
  pub project_id : Text
  pub node : ProjectNode
  pub explicit_reviewer_principal_id : Option Text
  pub reviewer_role_slot_key : Option Text
  pub authorization_at_utc : Text

pub data ReviewerSource : Type 0 where
  explicit role_slot node_owner : ReviewerSource

pub record ResolvedReviewer : Type 0 where
  pub reviewer_principal_id : Text
  pub source : ReviewerSource

pub data ReviewerError : Type 0 where
  reviewer_not_eligible validation_failed reviewer_required : ReviewerError

abbrev pub is_user_of : Text → Option Principal → Bool
is_user_of tenant none = false
is_user_of tenant (some p) = p.tenant_id == tenant && p.status == active && p.kind == user

abbrev pub is_member_of : (tenant project : Text) → Option ProjectMembership → Bool
is_member_of tenant project none = false
is_member_of tenant project (some m) =
    m.tenant_id == tenant && m.project_id == project && m.status == active

unfoldable pub is_candidate_eligible :
    DateApi
    → Directory
    → (tenant_id project_id : Text) → Option Text
    → (candidate at_utc : Text) → Bool
is_candidate_eligible d s tenant_id project_id security_domain_id candidate at_utc =
    if not (is_user_of tenant_id (get s.principals candidate))
    then false
    else if not (is_member_of tenant_id project_id (s.memberships project_id candidate))
    then false
    else can_access_project_object d s
        (record {
          membership = s.memberships project_id candidate;
          principal_id = candidate;
          capability = view;
          at_utc = at_utc;
        })
        project_id security_domain_id

abbrev pub eligible : DateApi → ReviewTables → ResolveTaskReviewerParams → Text → Bool
eligible d t p candidate =
    is_candidate_eligible d t.directory p.tenant_id p.project_id p.node.security_domain_id candidate
      p.authorization_at_utc

-- The candidates of a slot that is there and bound.
abbrev pub bound : Option TemplateRoleSlot → Option ProjectRoleBinding → List Text
bound none binding = []
bound (some slot) none = []
bound (some slot) (some binding) = binding.principal_ids

abbrev pub first : List Text → Option Text
first [] = none
first (candidate ∷ candidates) = some candidate

-- The second level: the first of the eligible candidates, in order.
unfoldable pub from_slot : DateApi → ReviewTables → ResolveTaskReviewerParams → Text → Option Text
from_slot d t p key = first (
    sort (
      keep (eligible d t p)
        (bound (t.role_slots p.project_id key) (t.role_bindings p.project_id key))))

-- The third and the last level.
unfoldable pub from_node :
    DateApi
    → ReviewTables
    → ResolveTaskReviewerParams
    → Option Text
    → Result ReviewerError ResolvedReviewer
from_node d t p none = err reviewer_required
from_node d t p (some leader) =
    if eligible d t p leader
    then ok (record { reviewer_principal_id = leader; source = node_owner })
    else err reviewer_required

unfoldable pub from_role :
    DateApi
    → ReviewTables
    → ResolveTaskReviewerParams
    → Option Text
    → Result ReviewerError ResolvedReviewer
from_role d t p none = from_node d t p p.node.leader_principal_id
from_role d t p (some key) =
    throw_if (not (is_key key)) validation_failed >> elim (from_slot d t p key) [
      | none ↦ from_node d t p p.node.leader_principal_id
      | some candidate ↦ ok (record { reviewer_principal_id = candidate; source = role_slot })
    ]

unfoldable pub resolve_explicit :
    DateApi
    → ReviewTables
    → ResolveTaskReviewerParams
    → Option Text
    → Result ReviewerError ResolvedReviewer
resolve_explicit d t p none = from_role d t p p.reviewer_role_slot_key
resolve_explicit d t p (some reviewer) =
    if eligible d t p reviewer
    then ok (record { reviewer_principal_id = reviewer; source = explicit })
    else err reviewer_not_eligible

unfoldable pub resolve_task_reviewer :
    DateApi → ReviewTables → ResolveTaskReviewerParams → Result ReviewerError ResolvedReviewer
resolve_task_reviewer d t p = resolve_explicit d t p p.explicit_reviewer_principal_id
