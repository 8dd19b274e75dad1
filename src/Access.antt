-- ===== src/Access.antt =====
-- packages/application/src/access/project-security.ts: who may do what with an object of a project,
-- also while a migration moves it between two security domains. A throw of the store is not
-- modelled: it ends the command.
pub mod Scope
pub mod Holding
pub mod Rules
pub mod Stable
pub mod Nodes
pub mod NodeRules
use project_process_map.Base.{
  ℕ, zero, suc, ◌+◌, Option, none, some, List, [], ◌∷◌, Bool, true, false, not, ◌&&◌, ◌||◌,
  if◌then◌else◌, ◌==◌, ◌!=◌, any, length,
}
use project_process_map.Base.Equality.{option_eq, list_eq, nat_eq}
use project_process_map.Base.Results.{Result, ok, err, throw_if}
use project_process_map.Base.Dates.{DateApi, is_some}
use project_process_map.Base.Sets.{contains}
use project_process_map.Base.Tables.{get}
use project_process_map.Base.Text.{Text}
use project_process_map.Projects.{
  Principal, user, kind_eq, project_manager, role_eq, ProjectMembership, ProjectNode,
  is_node_leader,
}
use project_process_map.Security.Access.{
  SecurityCapability, view, contribute, edit, manage_access, capability_eq, active, status_eq,
  SecurityDomain, grant_allows,
}
use project_process_map.Security.Migration.{SecurityDomainMigration, is_moving}
use project_process_map.Store.{Directory, keep, list_recoverable}

abbrev pub is_manager : Option ProjectMembership → Bool
is_manager none = false
is_manager (some m) = m.role == project_manager

-- `membership?.status === "active" && membership.projectId === projectId`
abbrev pub is_member : Option ProjectMembership → Text → Bool
is_member none project = false
is_member (some m) project = m.status == active && m.project_id == project

abbrev pub lists_domain : Option ProjectMembership → Text → Bool
lists_domain none domain = false
lists_domain (some m) domain = contains m.security_domain_ids domain

-- Who asks, for what and when.
pub record Query : Type 0 where
  pub membership : Option ProjectMembership
  pub principal_id : Text
  pub capability : SecurityCapability
  pub at_utc : Text

-- The domain of an object is there or not; a missing one is a v3 domain, which only shows.
pub domain_allows :
    DateApi → Directory → Query → (project domain_id : Text) → Option SecurityDomain → Bool
domain_allows d s q project domain_id none =
    q.capability == view && lists_domain q.membership domain_id
domain_allows d s q project domain_id (some domain) =
    if domain.project_id != project || domain.deleted_at_utc != none
    then false
    else if q.capability == manage_access && not (is_manager q.membership)
    then false
    else if domain.parent_security_domain_id != none
    then false
    else grant_allows d (s.security_grants domain.id q.principal_id) q.capability q.at_utc

-- The rest of `canAccessProjectObject`, by the object's domain.
pub in_domain : DateApi → Directory → Query → Text → Option Text → Bool
unfolding domain_allows
in_domain d s q project none = true
in_domain d s q project (some domain_id) =
    domain_allows d s q project domain_id (s.security_domains domain_id)

unfoldable pub can_access_project_object :
    DateApi → Directory → Query → (project_id : Text) → (security_domain_id : Option Text) → Bool
unfolding in_domain
can_access_project_object d s q project_id security_domain_id =
    if not (is_member q.membership project_id)
    then false
    else in_domain d s q project_id security_domain_id

pub record SecurityOwnedObjectReference : Type 0 where
  pub project_id : Text
  pub owner_node_id : Text
  pub security_domain_id : Option Text
  pub security_epoch : ℕ

pub data MigrationScope : Type 0 where
  inside outside invalid : MigrationScope

-- The `while` loop of `migrationScope`; `none` means that the fuel ran out.
unfoldable pub scope_walk :
    ℕ
    → List (Text × ProjectNode)
    → (project root : Text) → List Text
    → Option Text
    → Option MigrationScope
scope_walk zero nodes project root visited current = none
scope_walk (suc fuel) nodes project root visited none = some outside
scope_walk (suc fuel) nodes project root visited (some id) =
    if contains visited id then some invalid else elim (get nodes id) [
      | none ↦ some invalid
      | some node ↦ elim (node.project_id == project) [
        | false ↦ some invalid
        | true ↦ elim (node.id == root) [
          | true ↦ some inside
          | false ↦ scope_walk fuel nodes project root (id ∷ visited) node.parent_id
        ]
      ]
    ]

abbrev pub or_invalid : Option MigrationScope → MigrationScope
or_invalid none = invalid
or_invalid (some scope) = scope

-- A walk visits each node once, so one round more than there are nodes is enough.
unfoldable pub migration_scope : Directory → (project owner_node root : Text) → MigrationScope
migration_scope s project owner_node root =
    or_invalid (scope_walk (suc (length s.nodes)) s.nodes project root [] (some owner_node))

abbrev pub is_live_root : Option ProjectNode → Text → Bool
is_live_root none project = false
is_live_root (some root) project = root.project_id == project && root.deleted_at_utc == none

-- The scope is asked for with the id that the root is stored under, which is the root's own.
-- The loop that collects the migrations which hold the object; `none` is its early `return false`.
unfoldable pub relevant_migrations :
    Directory
    → (project owner_node : Text) → List SecurityDomainMigration
    → Option (List SecurityDomainMigration)
relevant_migrations s project owner_node [] = some []
relevant_migrations s project owner_node (m ∷ ms) =
    let rest = relevant_migrations s project owner_node ms in
    if not (is_live_root (get s.nodes m.root_node_id) project)
    then none
    else elim (migration_scope s project owner_node m.root_node_id) [
      | invalid ↦ none
      | outside ↦ rest
      | inside ↦ elim rest [ none ↦ none | some found ↦ some (m ∷ found) ]
    ]

abbrev pub is_flat_domain : Text → Option SecurityDomain → Bool
is_flat_domain project none = false
is_flat_domain project (some domain) =
    domain.project_id == project
    && domain.deleted_at_utc == none
    && domain.parent_security_domain_id == none

abbrev pub is_open_endpoint : Directory → Text → Option Text → Bool
is_open_endpoint s project none = true
is_open_endpoint s project (some domain_id) = is_flat_domain project (s.security_domains domain_id)

unfoldable pub can_access_migration_endpoint :
    DateApi → Directory → Query → (project_id : Text) → (security_domain_id : Option Text) → Bool
can_access_migration_endpoint d s q project_id security_domain_id =
    if not (is_open_endpoint s project_id security_domain_id)
    then false
    else can_access_project_object d s q project_id security_domain_id

-- The object stands at one of the two ends of the migration.
abbrev pub is_at_end : SecurityDomainMigration → SecurityOwnedObjectReference → Bool
is_at_end m o =
    o.security_domain_id == m.source_security_domain_id
      && o.security_epoch == m.source_security_epoch
    || o.security_domain_id == m.target_security_domain_id
      && o.security_epoch == m.target_security_epoch

unfoldable pub across_migration :
    DateApi → Directory → Query → SecurityOwnedObjectReference → SecurityDomainMigration → Bool
across_migration d s q o m =
    if not (is_at_end m o)
    then false
    else if not (can_access_migration_endpoint d s q o.project_id m.source_security_domain_id)
    then false
    else if m.source_security_domain_id == m.target_security_domain_id
    then true
    else can_access_migration_endpoint d s q o.project_id m.target_security_domain_id

-- By the migrations that hold the object: none, one, or a conflict.
unfoldable pub by_migrations :
    DateApi
    → Directory
    → Query
    → SecurityOwnedObjectReference
    → Option (List SecurityDomainMigration)
    → Bool
by_migrations d s q o none = false
by_migrations d s q o (some []) = can_access_project_object d s q o.project_id o.security_domain_id
by_migrations d s q o (some (m ∷ [])) = across_migration d s q o m
by_migrations d s q o (some (m ∷ n ∷ ms)) = false

-- The tests on the owner node of the object, with the rule on its leader.
abbrev pub is_live_principal : Option Principal → Bool
is_live_principal none = false
is_live_principal (some p) = p.status == active

abbrev pub leads : Option ProjectMembership → ProjectNode → Text → Bool
leads membership node principal = is_manager membership || is_node_leader node (some principal)

unfoldable pub owner_allows : Query → SecurityOwnedObjectReference → Option ProjectNode → Bool
owner_allows q o none = false
owner_allows q o (some node) =
    if node.deleted_at_utc != none
    then false
    else if node.project_id != o.project_id
    then false
    else if node.security_domain_id != o.security_domain_id
        || node.security_epoch != o.security_epoch
    then false
    else not (
        node.leader_principal_id != none
        && (q.capability == edit || q.capability == contribute)
        && not (leads q.membership node q.principal_id))

unfoldable pub can_access_project_object_during_migration :
    DateApi → Directory → Query → SecurityOwnedObjectReference → Bool
can_access_project_object_during_migration d s q o =
    if not (is_live_principal (get s.principals q.principal_id))
    then false
    else if not (owner_allows q o (get s.nodes o.owner_node_id))
    then false
    else by_migrations d s q o (
        relevant_migrations s o.project_id o.owner_node_id
          (keep (λ m. m.project_id == o.project_id && is_moving m.state) (list_recoverable s)))

unfoldable pub can_view_project_object_during_migration :
    DateApi → Directory → Query → SecurityOwnedObjectReference → Bool
can_view_project_object_during_migration d s q o =
    can_access_project_object_during_migration d s (record q { capability = view }) o

pub data AccessError : Type 0 where
  security_migration_in_progress : AccessError

unfoldable pub assert_project_security_stable : Directory → Text → Result AccessError (Unit {0})
assert_project_security_stable s project_id =
    throw_if (any (λ m. m.project_id == project_id) (list_recoverable s))
      security_migration_in_progress
