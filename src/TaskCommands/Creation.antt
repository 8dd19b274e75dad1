-- ===== src/TaskCommands/Creation.antt =====
-- packages/application/src/tasks/create-task.ts: the validation of a command, the access to the
-- node, and the creation of a task under a key that has no receipt. What a receipt of an earlier
-- creation leads to is not modelled. `undefined` and null are the same to the role slot of a command.
use project_process_map.Base.{
  ℕ, Bool, true, false, not, ◌&&◌, ◌||◌, Option, none, some, [], ◌∷◌, ◌++◌, ◌!=◌, any,
  if◌then◌else◌,
}
use project_process_map.Base.Equality.{list_eq, nat_eq, option_eq}
use project_process_map.Base.Results.{Result, ok, err, ◌>>=◌, ◌>>◌, throw_if, or_throw}
use project_process_map.Base.Checks.{given_and}
use project_process_map.Base.Dates.{DateApi, is_some, is_utc}
use project_process_map.Base.Tables.{get}
use project_process_map.Base.Text.{Text, text, is_blank}
use project_process_map.Base.Text.Shapes.{is_key}
use project_process_map.Projects.{ProjectNode, NodeKind, milestone}
use project_process_map.Security.Access.{view, contribute}
use project_process_map.Store.{Directory}
use project_process_map.Access.{
  AccessError, can_access_project_object, can_access_project_object_during_migration,
  assert_project_security_stable, is_live_principal,
}
use project_process_map.Reviewers.{
  ReviewTables, ResolveTaskReviewerParams, ReviewerError, ResolvedReviewer, resolve_task_reviewer,
}
use project_process_map.Events.{
  boolean, string, number, no_fields, field, DomainEvent, BackgroundJob, JobState, decimal,
}
use project_process_map.Tasks.{ProductTask, TaskExecutionState, not_submitted, not_required}
use project_process_map.TaskCommands.View.{TaskView, to_task_view}
use project_process_map.TaskCommands.Messages.{outbox_for}
use project_process_map.Memory.{
  CommandScope, MemoryState, StoreError, through, receipts_insert, sequences_next, events_append,
  outbox_enqueue, jobs_schedule,
}
use project_process_map.Memory.Tasks.{tasks_get, tasks_insert}

pub record CreateTaskCommand : Type 0 where
  pub tenant_id : Text
  pub command_id : Text
  pub idempotency_key : Text
  pub correlation_id : Text
  pub principal_id : Text
  pub project_id : Text
  pub node_id : Text
  pub task_id : Text
  pub title : Text
  pub assignee_principal_id : Option Text
  pub requires_acceptance : Bool
  pub reviewer_principal_id : Option Text
  pub reviewer_role_slot_key : Option Text
  pub occurred_at_utc : Text

pub data CreationError : Type 0 where
  validation_failed reviewer_not_allowed node_not_found project_mismatch : CreationError
  milestone_task_forbidden node_deleted task_already_exists assignee_not_eligible : CreationError
  access_error : AccessError → CreationError
  reviewer_error : ReviewerError → CreationError
  store_error : StoreError → CreationError

-- A reviewer, or the slot of one, for a task without acceptance.
abbrev pub names_needless_reviewer : CreateTaskCommand → Bool
names_needless_reviewer c =
    not c.requires_acceptance
    && (is_some c.reviewer_principal_id || is_some c.reviewer_role_slot_key)

unfoldable pub validate_creation : DateApi → CreateTaskCommand → Result CreationError (Unit {0})
validate_creation d c = do
  throw_if
      (any is_blank (
        c.tenant_id ∷ c.command_id ∷ c.idempotency_key ∷ c.correlation_id ∷ c.principal_id
        ∷ c.project_id ∷ c.node_id ∷ c.task_id ∷ c.title ∷ []))
      validation_failed
  throw_if (not (is_utc d c.occurred_at_utc)) validation_failed
  throw_if (names_needless_reviewer c) reviewer_not_allowed
  throw_if (given_and (λ key. not (is_key key)) c.reviewer_role_slot_key) validation_failed

-- The node, for someone who may contribute to it while no migration of the project runs.
unfoldable pub authorize_creation :
    DateApi → Directory → (at_utc : Text) → CreateTaskCommand → Result CreationError ProjectNode
authorize_creation d s at_utc c = do
  node ← or_throw (get s.nodes c.node_id) node_not_found
  throw_if (node.project_id != c.project_id) project_mismatch
  throw_if
      (not (
        can_access_project_object_during_migration d s
          (record {
            membership = s.memberships c.project_id c.principal_id;
            principal_id = c.principal_id;
            capability = contribute;
            at_utc = at_utc;
          })
          (record {
            project_id = c.project_id;
            owner_node_id = node.id;
            security_domain_id = node.security_domain_id;
            security_epoch = node.security_epoch;
          })))
      node_not_found
  through access_error (assert_project_security_stable s c.project_id)
  ok node

abbrev pub may_be_assigned :
    DateApi → Directory → (at_utc : Text) → CreateTaskCommand → ProjectNode → Text → Bool
may_be_assigned d s at_utc c node assignee =
    can_access_project_object d s
      (record {
        membership = s.memberships c.project_id assignee;
        principal_id = assignee;
        capability = view;
        at_utc = at_utc;
      })
      c.project_id node.security_domain_id
    && is_live_principal (get s.principals assignee)

abbrev pub reviewer_of : Result ReviewerError ResolvedReviewer → Result CreationError (Option Text)
reviewer_of (err e) = err (reviewer_error e)
reviewer_of (ok r) = ok (some r.reviewer_principal_id)

abbrev pub review_params :
    (at_utc : Text) → CreateTaskCommand → ProjectNode → ResolveTaskReviewerParams
review_params at_utc c node = record {
  tenant_id = c.tenant_id;
  project_id = c.project_id;
  node = node;
  explicit_reviewer_principal_id = c.reviewer_principal_id;
  reviewer_role_slot_key = c.reviewer_role_slot_key;
  authorization_at_utc = at_utc;
}

-- The reviewer of a task that needs acceptance.
unfoldable pub resolve_reviewer :
    DateApi
    → ReviewTables
    → (at_utc : Text) → CreateTaskCommand
    → ProjectNode
    → Result CreationError (Option Text)
resolve_reviewer d t at_utc c node =
    if c.requires_acceptance
    then reviewer_of (resolve_task_reviewer d t (review_params at_utc c node))
    else ok none

unfoldable pub new_task : CreateTaskCommand → ProjectNode → Option Text → ProductTask
new_task c node reviewer = record {
  tenant_id = c.tenant_id;
  id = c.task_id;
  project_id = c.project_id;
  owner_node_id = node.id;
  security_domain_id = node.security_domain_id;
  security_epoch = node.security_epoch;
  title = c.title;
  assignee_principal_id = c.assignee_principal_id;
  requires_acceptance = c.requires_acceptance;
  reviewer_principal_id = reviewer;
  execution_state = TaskExecutionState.todo;
  review_state = if c.requires_acceptance then not_submitted else not_required;
  version = 1;
  deleted_at_utc = none;
}

unfoldable pub creation_event : CreateTaskCommand → ProductTask → (sequence : ℕ) → DomainEvent
creation_event c task sequence = record {
  tenant_id = c.tenant_id;
  event_id = text "evt:" ++ c.command_id;
  project_id = c.project_id;
  project_sequence = sequence;
  aggregate_type = text "task";
  aggregate_id = task.id;
  aggregate_version = task.version;
  event_type = text "project-map.task.created";
  schema_version = 1;
  actor_principal_id = c.principal_id;
  occurred_at_utc = c.occurred_at_utc;
  correlation_id = c.correlation_id;
  causation_id = c.command_id;
  original_security_domain_id = task.security_domain_id;
  original_security_epoch = task.security_epoch;
  payload = field (text "taskId") (string task.id) (
      field (text "nodeId") (string task.owner_node_id)
        (field (text "requiresAcceptance") (boolean task.requires_acceptance) no_fields));
}

unfoldable pub projection_job : CreateTaskCommand → ProductTask → BackgroundJob
projection_job c task = record {
  tenant_id = c.tenant_id;
  id = text "job:collaboration-task:" ++ task.id ++ text ":v" ++ decimal task.version;
  job_type = text "collaboration.task.project";
  dedupe_key = some (task.id ++ text ":v" ++ decimal task.version);
  payload = field (text "taskId") (string task.id) (
      field (text "desiredVersion") (number task.version)
        (field (text "correlationId") (string c.correlation_id) no_fields));
  state = JobState.pending;
  priority = 50;
  available_at_utc = c.occurred_at_utc;
  attempts = 0;
  max_attempts = 8;
  lease_owner = none;
  lease_token = none;
  lease_expires_at_utc = none;
  last_error = none;
  completed_at_utc = none;
  created_at_utc = c.occurred_at_utc;
}

unfoldable pub schedule_projection :
    (scheduled : Bool)
    → CreateTaskCommand
    → ProductTask
    → MemoryState
    → Result StoreError MemoryState
schedule_projection true c task s = jobs_schedule c.tenant_id s (projection_job c task)
schedule_projection false c task s = ok s

abbrev pub creation_scope : CreateTaskCommand → CommandScope
creation_scope c = record {
  principal_id = c.principal_id;
  operation = text "create_task";
  idempotency_key = c.idempotency_key;
}

abbrev pub is_milestone : NodeKind → Bool
is_milestone milestone = true
is_milestone _ = false

-- The writes, in their order.
unfoldable pub write_creation :
    (scheduled : Bool)
    → MemoryState
    → CreateTaskCommand
    → (fingerprint : Text) → ProductTask
    → Result StoreError (TaskView × MemoryState)
write_creation scheduled s c fingerprint task = do
  inserted ← tasks_insert c.tenant_id s task
  let counted = sequences_next c.tenant_id inserted c.project_id
  let e = creation_event c task counted.0
  appended ← events_append c.tenant_id counted.1 e
  queued ← outbox_enqueue c.tenant_id appended (outbox_for e)
  planned ← schedule_projection scheduled c task queued
  recorded ← receipts_insert c.tenant_id planned (record {
    scope = creation_scope c;
    fingerprint = fingerprint;
    result = to_task_view task [];
    created_at_utc = c.occurred_at_utc;
  })
  ok (to_task_view task [], recorded)

-- The rest of `execute` without a receipt. The tables are those of the state's tenant.
unfoldable pub create :
    DateApi
    → ReviewTables
    → (scheduled : Bool) → (at_utc fingerprint : Text) → CreateTaskCommand
    → ProjectNode
    → MemoryState
    → Result CreationError (TaskView × MemoryState)
create d tables scheduled at_utc fingerprint c node s = do
  throw_if (is_milestone node.kind) milestone_task_forbidden
  throw_if (is_some node.deleted_at_utc) node_deleted
  throw_if (is_some (tasks_get c.tenant_id s c.task_id)) task_already_exists
  throw_if (names_needless_reviewer c) reviewer_not_allowed
  throw_if
      (given_and (λ assignee. not (may_be_assigned d tables.directory at_utc c node assignee))
        c.assignee_principal_id)
      assignee_not_eligible
  reviewer ← resolve_reviewer d tables at_utc c node
  through store_error (write_creation scheduled s c fingerprint (new_task c node reviewer))
