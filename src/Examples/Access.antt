-- ===== src/Examples/Access.antt =====
-- A project with two nodes, one of whose branches moves into a security domain.
use project_process_map.Base.{
  ◌≡◌, inr, ◌↔◌, refl, true, none, some, [], ◌∷◌, ◌==◌, ◌&&◌, if◌then◌else◌, suc, length, All,
  at_head,
}
use project_process_map.Base.Equality.{list_eq, nat_eq, option_eq}
use project_process_map.Base.Results.{ok}
use project_process_map.Base.Text.{text}
use project_process_map.Projects.{
  Principal, user, ProjectMembership, project_manager, member, ProjectNode, stage, is_node_leader,
}
use project_process_map.Security.Access.{edit, active, SecurityDomain, SecurityGrant, grant_allows}
use project_process_map.Store.{Directory, list_recoverable}
use project_process_map.Access.{
  Query, SecurityOwnedObjectReference, inside, scope_walk, migration_scope, relevant_migrations,
  can_access_project_object, can_access_migration_endpoint, across_migration, by_migrations,
  owner_allows, can_access_project_object_during_migration, assert_project_security_stable,
  is_at_end,
}
use project_process_map.Access.Scope.{
  Below, at_root, under, migration_scope_total, migration_scope_inside,
}
use project_process_map.Access.Holding.{IsHolding, is_holding, access_at_both_ends}
use project_process_map.Access.Rules.{
  IsGrounded, access-IsGrounded, migrations_only_narrow, IsGranted, access-IsGranted,
}
use project_process_map.Access.Nodes.{
  by_node, is_fresh, role_allows, can_access_project_node_during_migration,
}
use project_process_map.Access.NodeRules.{IsOpenNode, node_access-IsOpenNode}
use project_process_map.Access.Stable.{IsEnded, stable_iff}
use project_process_map.Examples.Clock.{clock, noon, evening, text_tests}
use project_process_map.Examples.Migrations.{begun}

abbrev ann : Principal
ann = record {
  tenant_id = text "t";
  id = text "ann";
  kind = user;
  status = active;
  version = 1;
  created_at_utc = noon;
  updated_at_utc = noon;
}

abbrev membership : ProjectMembership
membership = record {
  tenant_id = text "t";
  project_id = text "p";
  principal_id = text "ann";
  role = member;
  status = active;
  security_domain_ids = [];
  version = 1;
  created_at_utc = noon;
  updated_at_utc = noon;
}

abbrev pub root : ProjectNode
root = record {
  tenant_id = text "t";
  id = text "n";
  project_id = text "p";
  parent_id = none;
  leader_principal_id = none;
  title = text "root";
  kind = stage;
  status = none;
  completed_at_utc = none;
  completed_by_principal_id = none;
  security_domain_id = none;
  security_epoch = 1;
  version = 1;
  deleted_at_utc = none;
}

-- The branch has moved already.
abbrev pub branch : ProjectNode
branch = record root {
  id = text "n2";
  parent_id = some (text "n");
  security_domain_id = some (text "dom");
  security_epoch = 2;
}

abbrev domain : SecurityDomain
domain = record {
  tenant_id = text "t";
  id = text "dom";
  project_id = text "p";
  root_node_id = text "n";
  parent_security_domain_id = none;
  permission_version = 1;
  version = 1;
  created_by_principal_id = text "ann";
  created_at_utc = noon;
  deleted_at_utc = none;
}

abbrev grant : SecurityGrant
grant = record {
  tenant_id = text "t";
  id = text "g";
  security_domain_id = text "dom";
  principal_id = text "ann";
  capability = edit;
  status = active;
  expires_at_utc = some evening;
  granted_by_principal_id = text "ann";
  reason = text "work";
  version = 1;
  created_at_utc = noon;
  updated_at_utc = noon;
}

abbrev pub store : Directory
store = record {
  principals = (text "ann", ann) ∷ [];
  nodes = (text "n", root) ∷ (text "n2", branch) ∷ [];
  memberships = λ project principal.
      if project == text "p" && principal == text "ann" then some membership else none;
  security_domains = λ id. if id == text "dom" then some domain else none;
  security_grants =
      λ id principal. if id == text "dom" && principal == text "ann" then some grant else none;
  security_migrations = begun ∷ [];
}

abbrev query : Query
query = record {
  membership = some membership;
  principal_id = text "ann";
  capability = edit;
  at_utc = noon;
}

abbrev object : SecurityOwnedObjectReference
object = record {
  project_id = text "p";
  owner_node_id = text "n2";
  security_domain_id = some (text "dom");
  security_epoch = 2;
}

may_edit : can_access_project_object_during_migration clock store query object ≡ true
unfolding can_access_project_object_during_migration by_migrations across_migration
    can_access_migration_endpoint can_access_project_object owner_allows relevant_migrations
    migration_scope scope_walk list_recoverable grant_allows is_node_leader text_tests
may_edit = refl

branch-Below : Below store.nodes (text "p") (text "n") (text "n2")
branch-Below = under branch (text "n") refl refl refl refl (at_root root refl refl refl)

begun_holds : IsHolding store object begun
begun_holds = is_holding (at_head refl) refl refl branch-Below

migration_scope_total_example :
    scope_walk (suc (length store.nodes)) store.nodes (text "p") (text "n") [] (some (text "n2"))
    ≡ some (migration_scope store (text "p") (text "n2") (text "n"))
migration_scope_total_example = migration_scope_total store (text "p") (text "n2") (text "n")

migration_scope_inside_example : migration_scope store (text "p") (text "n2") (text "n") ≡ inside
migration_scope_inside_example =
    (migration_scope_inside store (text "p") (text "n2") (text "n")).1 branch-Below

access-IsGrounded_example : IsGrounded store query object
access-IsGrounded_example = access-IsGrounded clock store query object may_edit

access_at_both_ends_example :
    (is_at_end begun object ≡ true)
    × (can_access_project_object clock store query (text "p") none ≡ true)
    × (can_access_project_object clock store query (text "p") (some (text "dom")) ≡ true)
access_at_both_ends_example =
    access_at_both_ends clock store query object begun may_edit begun_holds

migrations_only_narrow_example :
    can_access_project_object clock store query (text "p") (some (text "dom")) ≡ true
migrations_only_narrow_example = migrations_only_narrow clock store query object may_edit

access-IsGranted_example : IsGranted clock store query (text "p") domain
access-IsGranted_example =
    access-IsGranted clock store query object (text "dom") domain may_edit refl refl

stable_iff_example :
    (assert_project_security_stable store (text "p2") ≡ ok tt)
    ↔ All (IsEnded (text "p2")) store.security_migrations
stable_iff_example = stable_iff store (text "p2")

-- The stored branch, edited by a manager.
abbrev manager_query : Query
manager_query = record query { membership = some (record membership { role = project_manager }) }

may_edit_branch :
    can_access_project_node_during_migration clock store manager_query (by_node branch) ≡ true
unfolding can_access_project_node_during_migration is_fresh role_allows
    can_access_project_object_during_migration by_migrations across_migration
    can_access_migration_endpoint can_access_project_object owner_allows relevant_migrations
    migration_scope scope_walk list_recoverable grant_allows is_node_leader text_tests
may_edit_branch = refl

node_access-IsOpenNode_example : IsOpenNode store manager_query (by_node branch)
node_access-IsOpenNode_example =
    node_access-IsOpenNode clock store manager_query (by_node branch) (inr may_edit_branch)
