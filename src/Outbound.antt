-- ===== src/Outbound.antt =====
-- packages/adapters/src/memory/persistence.ts: whether anything is still on its way out of the part
-- of a project that a migration moves (`hasActiveFenceOrUnresolvedOperationInMigrationScope`).
-- The tables hold the rows of one tenant, by the key without the tenant's prefix.
pub mod Quiet
use project_process_map.Base.{
  ℕ, zero, suc, Bool, true, false, not, ◌&&◌, ◌||◌, Option, none, some, List, [], ◌∷◌,
  if◌then◌else◌, ◌==◌, ◌!=◌, length, any,
}
use project_process_map.Base.Equality.{option_eq, list_eq, nat_eq}
use project_process_map.Base.Sets.{contains}
use project_process_map.Base.Tables.{get}
use project_process_map.Base.Text.{Text, text_lt}
use project_process_map.Projects.{ProjectNode}
use project_process_map.Access.{is_live_root}
use project_process_map.Assets.{Asset}
use project_process_map.Tasks.{ProductTask}
use project_process_map.Fences.{OutboundProjectionFence, Fences}
use project_process_map.Security.Migration.{SecurityDomainMigration}
use project_process_map.Integrations.{
  IntegrationOperation, IntegrationOperationType, asset_ingest, collaboration_task_project,
  collaboration_asset_project, blob_delete, completed, compensated, state_eq, SubjectType,
}

-- The tables that the function reads.
pub record OutboundState : Type 0 where
  pub nodes : List (Text × ProjectNode)
  pub tasks : List (Text × ProductTask)
  pub assets : List (Text × Asset)
  pub outbound_projection_fences : Fences
  pub operations : List (Text × IntegrationOperation)

-- The `while` loop: `some true` is a `return true`, `some false` the end of the loop, and `none`
-- means that the fuel ran out.
unfoldable pub walk_meets :
    ℕ → List (Text × ProjectNode) → (project root : Text) → List Text → Option Text → Option Bool
walk_meets zero nodes project root visited current = none
walk_meets (suc fuel) nodes project root visited none = some false
walk_meets (suc fuel) nodes project root visited (some id) =
    if contains visited id then some true else elim (get nodes id) [
      | none ↦ some true
      | some node ↦ elim (node.project_id == project && node.deleted_at_utc == none) [
        | false ↦ some true
        | true ↦ elim (node.id == root) [
          | true ↦ some true
          | false ↦ walk_meets fuel nodes project root (id ∷ visited) node.parent_id
        ]
      ]
    ]

abbrev pub or_true : Option Bool → Bool
or_true none = true
or_true (some met) = met

-- A walk visits each node once, so one round more than there are nodes is enough.
unfoldable pub meets_scope : List (Text × ProjectNode) → (project root owner_node : Text) → Bool
meets_scope nodes project root owner_node =
    or_true (walk_meets (suc (length nodes)) nodes project root [] (some owner_node))

abbrev pub is_active : SecurityDomainMigration → (now : Text) → OutboundProjectionFence → Bool
is_active m now f = f.project_id == m.project_id && text_lt now f.expires_at_utc

abbrev pub is_projection : IntegrationOperationType → Bool
is_projection collaboration_task_project = true
is_projection collaboration_asset_project = true
is_projection asset_ingest = false
is_projection blob_delete = false

abbrev pub is_unresolved : IntegrationOperation → Bool
is_unresolved op =
    not (contains (completed ∷ compensated ∷ []) op.state) && is_projection op.operation_type

-- What the loop reads of the task or the asset of an operation.
pub record Subject : Type 0 where
  pub project_id : Text
  pub owner_node_id : Text
  pub deleted_at_utc : Option Text

abbrev pub task_subject : Option ProductTask → Option Subject
task_subject none = none
task_subject (some t) = some (record {
  project_id = t.project_id;
  owner_node_id = t.owner_node_id;
  deleted_at_utc = t.deleted_at_utc;
})

abbrev pub asset_subject : Option Asset → Option Subject
asset_subject none = none
asset_subject (some a) = some (record {
  project_id = a.project_id;
  owner_node_id = a.owner_node_id;
  deleted_at_utc = a.deleted_at_utc;
})

abbrev pub subject_by : OutboundState → Text → SubjectType → Option Subject
subject_by s id SubjectType.task = task_subject (get s.tasks id)
subject_by s id SubjectType.asset = asset_subject (get s.assets id)

abbrev pub subject_of : OutboundState → IntegrationOperation → Option Subject
subject_of s op = subject_by s op.subject_id op.subject_type

unfoldable pub subject_blocks :
    List (Text × ProjectNode) → SecurityDomainMigration → Option Subject → Bool
subject_blocks nodes m none = true
subject_blocks nodes m (some x) =
    if x.project_id != m.project_id
    then false
    else if x.deleted_at_utc != none
    then true
    else x.owner_node_id == [] || meets_scope nodes m.project_id m.root_node_id x.owner_node_id

abbrev pub fence_blocks :
    OutboundState → SecurityDomainMigration → Text → Text × OutboundProjectionFence → Bool
fence_blocks s m now (key, f) =
    is_active m now f && meets_scope s.nodes m.project_id m.root_node_id f.owner_node_id

abbrev pub operation_blocks :
    OutboundState → SecurityDomainMigration → Text × IntegrationOperation → Bool
operation_blocks s m (key, op) = is_unresolved op && subject_blocks s.nodes m (subject_of s op)

unfoldable pub has_active_fence_or_unresolved_operation_in_migration_scope :
    OutboundState → SecurityDomainMigration → (trusted_now_utc : Text) → Bool
has_active_fence_or_unresolved_operation_in_migration_scope s m trusted_now_utc =
    if not (any (λ entry. is_active m trusted_now_utc entry.1) s.outbound_projection_fences)
      && not (any (λ entry. is_unresolved entry.1) s.operations)
    then false
    else if not (is_live_root (get s.nodes m.root_node_id) m.project_id)
    then true
    else any (fence_blocks s m trusted_now_utc) s.outbound_projection_fences
      || any (operation_blocks s m) s.operations
