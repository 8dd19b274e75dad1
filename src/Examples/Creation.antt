-- ===== src/Examples/Creation.antt =====
-- The creation of a task that needs acceptance, with an explicit reviewer.
use project_process_map.Base.{◌≡◌, refl, true, false, none, some, [], ◌∷◌}
use project_process_map.Base.Results.{ok}
use project_process_map.Base.Equality.{list_eq, nat_eq}
use project_process_map.Base.Tables.{put}
use project_process_map.Base.Text.{text}
use project_process_map.Events.{digits, event_topic, DomainEvent}
use project_process_map.Events.Registry.{
  lower_unit, normalized_key, is_forbidden, assert_no_sensitive_fields, get_event_schema,
  registered_schemas, is_reserved, check_required, check_known, check_payload,
  validate_event_against_schema,
}
use project_process_map.Access.{can_access_project_object}
use project_process_map.Reviewers.{
  ReviewTables, is_candidate_eligible, resolve_explicit, resolve_task_reviewer,
}
use project_process_map.Tasks.{ProductTask, task_lifecycle}
use project_process_map.TaskCommands.View.{to_task_view}
use project_process_map.TaskCommands.Messages.{outbox_for}
use project_process_map.TaskCommands.Creation.{
  CreateTaskCommand, new_task, creation_event, creation_scope, resolve_reviewer,
  schedule_projection, write_creation, create,
}
use project_process_map.TaskCommands.Created.{IsCreated, create-IsCreated}
use project_process_map.Memory.{
  MemoryState, key_of, receipt_key, assert_tenant, receipts_insert, sequences_current,
  sequences_next, events_append, outbox_enqueue, event_key, aggregate_key, sequence_key,
}
use project_process_map.Memory.Tasks.{tasks_get, tasks_insert}
use project_process_map.Examples.Clock.{clock, noon, text_tests}
use project_process_map.Examples.Commands.{state, node, directory}

abbrev command : CreateTaskCommand
command = record {
  tenant_id = text "t";
  command_id = text "c2";
  idempotency_key = text "k2";
  correlation_id = text "r2";
  principal_id = text "bob";
  project_id = text "p";
  node_id = text "n";
  task_id = text "task-2";
  title = text "plan";
  assignee_principal_id = some (text "bob");
  requires_acceptance = true;
  reviewer_principal_id = some (text "bob");
  reviewer_role_slot_key = none;
  occurred_at_utc = noon;
}

abbrev tables : ReviewTables
tables = record {
  directory = directory;
  role_slots = λ project key. none;
  role_bindings = λ project key. none;
}

abbrev task : ProductTask
task = new_task command node (some (text "bob"))

abbrev event : DomainEvent
event = creation_event command task 1

abbrev after : MemoryState
after = record state {
  tasks = put state.tasks (key_of (text "t") (text "task-2")) task;
  receipts =
      (
        receipt_key (text "t") (creation_scope command),
        record {
          scope = creation_scope command;
          fingerprint = text "f";
          result = to_task_view task [];
          created_at_utc = noon;
        },
      )
      ∷ [];
  sequences = (key_of (text "t") (text "p"), 1) ∷ [];
  events = (event_key (text "t") event, event) ∷ [];
  aggregate_versions = aggregate_key (text "t") event ∷ [];
  project_event_sequences = sequence_key (text "t") event ∷ [];
  outbox = (key_of (text "t") (outbox_for event).id, outbox_for event) ∷ [];
}

created :
    create clock tables false noon (text "f") command node state ≡ ok (to_task_view task [], after)
unfolding create resolve_reviewer resolve_task_reviewer resolve_explicit is_candidate_eligible
    write_creation new_task creation_event schedule_projection tasks_get tasks_insert assert_tenant
    sequences_next sequences_current events_append outbox_enqueue receipts_insert outbox_for
    event_topic to_task_view task_lifecycle can_access_project_object put digits text_tests
    lower_unit normalized_key is_forbidden assert_no_sensitive_fields get_event_schema
    registered_schemas is_reserved check_required check_known check_payload
    validate_event_against_schema
created = refl

create-IsCreated_example :
    IsCreated clock tables noon command node state (to_task_view task []) after
create-IsCreated_example =
    create-IsCreated clock tables noon command node false (text "f") state after
      (to_task_view task []) created
