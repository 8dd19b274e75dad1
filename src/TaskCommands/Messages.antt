-- ===== src/TaskCommands/Messages.antt =====
-- packages/application/src/tasks/act-on-task.ts: the event of an action (`appendEvent`,
-- `eventType`) and the message that announces it (`outboxFor`).
use project_process_map.Base.{ℕ, Option, none, some, ◌++◌}
use project_process_map.Base.Results.{Result, ok, ◌>>=◌}
use project_process_map.Base.Text.{Text, text}
use project_process_map.Events.{
  string, number, Fields, no_fields, field, DomainEvent, event_topic, OutboxMessage, OutboxState,
}
use project_process_map.Tasks.{ProductTask}
use project_process_map.TaskCommands.{
  TaskCommandAction, start, submit, accept, reject, withdraw, complete, assign_assignee,
  assign_reviewer, ActOnTaskCommand,
}
use project_process_map.Memory.{MemoryState, StoreError, sequences_next, events_append}

unfoldable pub event_type : TaskCommandAction → Text
event_type submit = text "project-map.task.review.submitted"
event_type accept = text "project-map.task.review.accepted"
event_type reject = text "project-map.task.review.rejected"
event_type withdraw = text "project-map.task.review.withdrawn"
event_type complete = text "project-map.task.completed"
event_type assign_reviewer = text "project-map.task.reviewer_assigned"
event_type assign_assignee = text "project-map.task.assignee_assigned"
event_type start = text "project-map.task.started"

abbrev pub cycle_field : Option ℕ → Fields
cycle_field none = no_fields
cycle_field (some cycle_number) = field (text "cycleNumber") (number cycle_number) no_fields

unfoldable pub task_event : ActOnTaskCommand → ProductTask → Option ℕ → (sequence : ℕ) → DomainEvent
task_event c task cycle_number sequence = record {
  tenant_id = c.tenant_id;
  event_id = text "evt:" ++ c.command_id;
  project_id = task.project_id;
  project_sequence = sequence;
  aggregate_type = text "task";
  aggregate_id = task.id;
  aggregate_version = task.version;
  event_type = event_type c.action;
  schema_version = 1;
  actor_principal_id = c.principal_id;
  occurred_at_utc = c.occurred_at_utc;
  correlation_id = c.correlation_id;
  causation_id = c.command_id;
  original_security_domain_id = task.security_domain_id;
  original_security_epoch = task.security_epoch;
  payload =
      field (text "taskId") (string task.id)
        (field (text "nodeId") (string task.owner_node_id) (cycle_field cycle_number));
}

unfoldable pub outbox_for : DomainEvent → OutboxMessage
outbox_for e = record {
  tenant_id = e.tenant_id;
  id = text "outbox:" ++ e.event_id;
  event_id = e.event_id;
  topic = event_topic e;
  payload = e;
  state = OutboxState.pending;
  available_at_utc = e.occurred_at_utc;
  attempts = 0;
  max_attempts = 8;
  lease_owner = none;
  lease_token = none;
  lease_expires_at_utc = none;
  last_error = none;
  published_at_utc = none;
  created_at_utc = e.occurred_at_utc;
}

-- `appendEvent`, with the event it returns.
unfoldable pub append_event :
    MemoryState
    → ActOnTaskCommand
    → ProductTask
    → Option ℕ
    → Result StoreError (DomainEvent × MemoryState)
append_event s c task cycle_number =
    let (sequence, counted) = sequences_next c.tenant_id s task.project_id in
    let e = task_event c task cycle_number sequence in
    events_append c.tenant_id counted e >>= λ t. ok (e, t)
