-- ===== src/Examples/Outbound.antt =====
-- A task that is being projected while a migration of its node is under way.
use project_process_map.Base.{◌≡◌, refl, true, false, none, [], ◌∷◌, at_head}
use project_process_map.Base.Text.{Text, text}
use project_process_map.Access.Scope.{at_root}
use project_process_map.Integrations.{
  IntegrationOperation, collaboration_task_project, completed, SubjectType,
}
use project_process_map.Outbound.{
  OutboundState, has_active_fence_or_unresolved_operation_in_migration_scope,
}
use project_process_map.Outbound.Quiet.{by_operation, outbound-blocks}
use project_process_map.Examples.Access.{store, root}
use project_process_map.Examples.Fences.{fence}
use project_process_map.Examples.Integrations.{ingest}
use project_process_map.Examples.Migrations.{begun}
use project_process_map.Examples.TaskCommands.{task}

abbrev projection : IntegrationOperation
projection = record ingest {
  operation_type = collaboration_task_project;
  subject_type = SubjectType.task;
  subject_id = text "task-1";
}

abbrev busy : OutboundState
busy = record {
  nodes = store.nodes;
  tasks = (text "task-1", task) ∷ [];
  assets = [];
  outbound_projection_fences = (text "f", fence) ∷ [];
  operations = (text "op", projection) ∷ [];
}

abbrev settled : OutboundState
settled = record busy { operations = (text "op", record projection { state = completed }) ∷ [] }

abbrev late : Text
late = text "2026-01-01T00:10:00.000Z"

-- The fence has expired and the projection is completed.
settled_quiet :
    has_active_fence_or_unresolved_operation_in_migration_scope settled begun late ≡ false
unfolding has_active_fence_or_unresolved_operation_in_migration_scope
settled_quiet = refl

outbound-blocks_example :
    has_active_fence_or_unresolved_operation_in_migration_scope busy begun late ≡ true
outbound-blocks_example =
    outbound-blocks busy begun late (text "n")
      (by_operation (text "op") projection
        (record { project_id = text "p"; owner_node_id = text "n"; deleted_at_utc = none })
        (at_head refl) refl refl refl)
      (at_root root refl refl refl)
