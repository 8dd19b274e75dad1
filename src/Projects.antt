-- ===== src/Projects.antt =====
-- packages/domain/src/identity.ts, project-access.ts and project-structure.ts: principals, the
-- membership of a project, and its nodes.
use project_process_map.Base.{
  ℕ, ◌+◌, ◌≡◌, Bool, true, false, ◌&&◌, Option, none, some, List, Eq, ◌==◌, ◌!=◌, arith,
}
use project_process_map.Base.Equality.{enum_eq, option_eq, list_eq, nat_eq}
use project_process_map.Base.Results.{Result, ok, ◌>>◌, throw_if}
use project_process_map.Base.Sets.{contains}
use project_process_map.Base.Text.{Text, text, trim, is_empty}
use project_process_map.Security.Access.{Status, active, status_eq}

pub data IdentifierError : Type 0 where
  identifier_is_required invalid_character : IdentifierError

-- `tenantId` and `principalId` differ in the name that the message quotes.
unfoldable pub identifier : Text → Result IdentifierError Text
identifier value = do
  let normalized = trim value
  throw_if (is_empty normalized) identifier_is_required
  throw_if (contains normalized 0) invalid_character
  ok normalized

pub data PrincipalKind : Type 0 where
  user service : PrincipalKind

abbrev pub kind_rank : PrincipalKind → ℕ
kind_rank user = 0
kind_rank service = 1

pub kind_rank_injective : (a b : PrincipalKind) → kind_rank a ≡ kind_rank b → a ≡ b
kind_rank_injective a b h = ground arith

instance abbrev pub kind_eq : Eq PrincipalKind
kind_eq = enum_eq kind_rank kind_rank_injective

pub record Principal : Type 0 where
  pub tenant_id : Text
  pub id : Text
  pub kind : PrincipalKind
  pub status : Status
  pub version : ℕ
  pub created_at_utc : Text
  pub updated_at_utc : Text

pub data ProjectRole : Type 0 where
  project_manager member : ProjectRole

abbrev pub role_rank : ProjectRole → ℕ
role_rank project_manager = 0
role_rank member = 1

pub role_rank_injective : (a b : ProjectRole) → role_rank a ≡ role_rank b → a ≡ b
role_rank_injective a b h = ground arith

instance abbrev pub role_eq : Eq ProjectRole
role_eq = enum_eq role_rank role_rank_injective

pub record ProjectMembership : Type 0 where
  pub tenant_id : Text
  pub project_id : Text
  pub principal_id : Text
  pub role : ProjectRole
  pub status : Status
  pub security_domain_ids : List Text
  pub version : ℕ
  pub created_at_utc : Text
  pub updated_at_utc : Text

unfoldable pub is_project_manager : Option ProjectMembership → Bool
is_project_manager none = false
is_project_manager (some membership) =
    membership.status == active && membership.role == project_manager

pub data NodeKind : Type 0 where
  stage work_package milestone : NodeKind

pub data ProjectNodeStatus : Type 0 where
  planned in_progress completed : ProjectNodeStatus

-- A field that may be left out is `none` where it is undefined.
pub record ProjectNode : Type 0 where
  pub tenant_id : Text
  pub id : Text
  pub project_id : Text
  pub parent_id : Option Text
  pub leader_principal_id : Option Text
  pub title : Text
  pub kind : NodeKind
  pub status : Option ProjectNodeStatus
  pub completed_at_utc : Option (Option Text)
  pub completed_by_principal_id : Option (Option Text)
  pub security_domain_id : Option Text
  pub security_epoch : ℕ
  pub version : ℕ
  pub deleted_at_utc : Option Text

pub data RelationError : Type 0 where
  parent_child_relation_is_derived unknown_relation_kind : RelationError

unfoldable pub assert_writable_relation_kind : Text → Result RelationError (Unit {0})
assert_writable_relation_kind value = do
  throw_if (value == text "parent-child") parent_child_relation_is_derived
  throw_if (value != text "predecessor" && value != text "related") unknown_relation_kind

-- `none` is both null and undefined.
unfoldable pub is_node_leader : ProjectNode → Option Text → Bool
is_node_leader node none = false
is_node_leader node (some principal) =
    node.leader_principal_id != none && node.leader_principal_id == some principal

abbrev pub is_completed : Option ProjectNodeStatus → Bool
is_completed (some completed) = true
is_completed _ = false

pub data NodeError : Type 0 where
  node_already_completed : NodeError

unfoldable pub complete_project_node :
    ProjectNode → (completed_by occurred_at_utc : Text) → Result NodeError ProjectNode
complete_project_node node completed_by occurred_at_utc = do
  throw_if (is_completed node.status) node_already_completed
  ok (record node {
    status = some completed;
    completed_at_utc = some (some occurred_at_utc);
    completed_by_principal_id = some (some completed_by);
    version = node.version + 1;
  })
