-- ===== src/Access/Nodes.antt =====
-- packages/application/src/access/project-security.ts: the rules on a node itself
-- (`canAccessProjectNode` and `canAccessProjectNodeDuringMigration`).
use project_process_map.Base.{
  Option, none, some, Bool, true, false, not, ◌&&◌, ◌||◌, ◌==◌, ◌!=◌, if◌then◌else◌,
}
use project_process_map.Base.Equality.{option_eq, list_eq, nat_eq}
use project_process_map.Base.Dates.{DateApi}
use project_process_map.Base.Tables.{get}
use project_process_map.Base.Text.{Text}
use project_process_map.Projects.{Principal, user, kind_eq, role_eq, ProjectNode}
use project_process_map.Security.Access.{
  contribute, edit, manage_access, capability_eq, active, status_eq,
}
use project_process_map.Store.{Directory}
use project_process_map.Access.{
  Query, is_manager, is_member, leads, can_access_project_object,
  can_access_project_object_during_migration, SecurityOwnedObjectReference,
}

-- `nodeOrId: ProjectNode | string`
pub data NodeOrId : Type 0 where
  by_id : Text → NodeOrId
  by_node : ProjectNode → NodeOrId

abbrev pub node_id : NodeOrId → Text
node_id (by_id id) = id
node_id (by_node node) = node.id

-- A node that is handed over must agree with the stored one.
unfoldable pub is_fresh : NodeOrId → ProjectNode → Bool
is_fresh (by_id id) node = true
is_fresh (by_node given) node = not (
    given.project_id != node.project_id
    || given.security_domain_id != node.security_domain_id
    || given.security_epoch != node.security_epoch
    || given.leader_principal_id != node.leader_principal_id
    || given.version != node.version
    || given.deleted_at_utc != node.deleted_at_utc)

abbrev pub is_active_user : Option Principal → Bool
is_active_user none = false
is_active_user (some p) = p.status == active && p.kind == user

-- The tests on the role, by the capability.
unfoldable pub role_allows : Query → ProjectNode → Bool
role_allows q node =
    if q.capability == manage_access
    then is_manager q.membership
    else if q.capability == edit
    then leads q.membership node q.principal_id
    else if q.capability == contribute
    then node.leader_principal_id == none || leads q.membership node q.principal_id
    else true

-- The tests that the two functions share; then their last step, on the stored node.
unfoldable pub on_node : (ProjectNode → Bool) → Query → NodeOrId → Option ProjectNode → Bool
on_node last q given none = false
on_node last q given (some node) =
    if node.deleted_at_utc != none
    then false
    else if not (is_fresh given node)
    then false
    else if not (is_member q.membership node.project_id)
    then false
    else if not (role_allows q node)
    then false
    else last node

abbrev pub node_reference : ProjectNode → SecurityOwnedObjectReference
node_reference node = record {
  project_id = node.project_id;
  owner_node_id = node.id;
  security_domain_id = node.security_domain_id;
  security_epoch = node.security_epoch;
}

-- The last step of each.
abbrev pub plain_step : DateApi → Directory → Query → ProjectNode → Bool
plain_step d s q node =
    if node.security_domain_id == none
    then true
    else can_access_project_object d s q node.project_id node.security_domain_id

abbrev pub migration_step : DateApi → Directory → Query → ProjectNode → Bool
migration_step d s q node = can_access_project_object_during_migration d s q (node_reference node)

unfoldable pub can_access_project_node : DateApi → Directory → Query → NodeOrId → Bool
unfolding on_node
can_access_project_node d s q given =
    if not (is_active_user (get s.principals q.principal_id))
    then false
    else on_node (plain_step d s q) q given (get s.nodes (node_id given))

unfoldable pub can_access_project_node_during_migration :
    DateApi → Directory → Query → NodeOrId → Bool
unfolding on_node
can_access_project_node_during_migration d s q given =
    if not (is_active_user (get s.principals q.principal_id))
    then false
    else on_node (migration_step d s q) q given (get s.nodes (node_id given))
