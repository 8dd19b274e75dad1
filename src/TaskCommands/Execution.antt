-- ===== src/TaskCommands/Execution.antt =====
-- packages/application/src/tasks/act-on-task.ts: `ActOnTaskHandler.execute`, with its event and
-- its outbox message. The time of the authorization (`new Date()`) and the hash of a payload
-- (sha256 of its JSON text) are arguments.
use project_process_map.Base.{
  ℕ, Bool, true, false, not, ◌||◌, Option, none, some, List, [], ◌∷◌, ◌++◌, ◌!=◌,
}
use project_process_map.Base.Equality.{list_eq, nat_eq, option_eq}
use project_process_map.Base.Results.{Result, ok, err, ◌>>=◌, ◌>>◌, throw_if, or_throw}
use project_process_map.Base.Dates.{DateApi}
use project_process_map.Base.Tables.{get}
use project_process_map.Base.Text.{Text, text}
use project_process_map.Projects.{ProjectNode, is_project_manager}
use project_process_map.Security.Access.{view, status_eq}
use project_process_map.Store.{Directory}
use project_process_map.Access.{
  SecurityOwnedObjectReference, AccessError, can_access_project_object,
  can_access_project_object_during_migration, assert_project_security_stable, is_live_principal,
}
use project_process_map.Tasks.{ProductTask}
use project_process_map.TaskCommands.{
  TaskReviewActionRecord, TaskCommandAction, start, submit, accept, reject, withdraw, complete,
  assign_assignee, assign_reviewer, ActOnTaskCommand, ActionError, reviewer_required,
  assignee_required, action_capability, normalized_note, validate, assert_authorized, apply_action,
  Applied,
}
use project_process_map.TaskCommands.View.{TaskView, to_task_view}
use project_process_map.TaskCommands.Messages.{append_event, outbox_for}
use project_process_map.Memory.{
  CommandScope, CommandReceipt, MemoryState, StoreError, transaction, through, receipts_get,
  receipts_insert, outbox_enqueue,
}
use project_process_map.Memory.Tasks.{
  tasks_get, save_preserving_security_ownership, append_review_action, list_review_actions,
}

pub data ExecutionError : Type 0 where
  task_not_found reviewer_not_eligible assignee_not_eligible task_version_conflict : ExecutionError
  idempotency_key_reused_with_different_payload : ExecutionError
  action_error : ActionError → ExecutionError
  access_error : AccessError → ExecutionError
  store_error : StoreError → ExecutionError

-- What the fingerprint is made of.
pub record Payload : Type 0 where
  pub task_id : Text
  pub action : TaskCommandAction
  pub expected_version : ℕ
  pub assignee_principal_id : Option Text
  pub reviewer_principal_id : Option Text
  pub note : Option Text

pub record ActOnTaskResult : Type 0 where
  pub value : TaskView
  pub replayed : Bool

abbrev pub action_text : TaskCommandAction → Text
action_text start = text "start"
action_text submit = text "submit"
action_text accept = text "accept"
action_text reject = text "reject"
action_text withdraw = text "withdraw"
action_text complete = text "complete"
action_text assign_assignee = text "assign_assignee"
action_text assign_reviewer = text "assign_reviewer"

abbrev pub scope_of : ActOnTaskCommand → CommandScope
scope_of c = record {
  principal_id = c.principal_id;
  operation = text "task_" ++ action_text c.action;
  idempotency_key = c.idempotency_key;
}

abbrev pub payload_of : ActOnTaskCommand → Payload
payload_of c = record {
  task_id = c.task_id;
  action = c.action;
  expected_version = c.expected_version;
  assignee_principal_id = c.assignee_principal_id;
  reviewer_principal_id = c.reviewer_principal_id;
  note = normalized_note c.note;
}

abbrev pub owned_by : ProductTask → SecurityOwnedObjectReference
owned_by task = record {
  project_id = task.project_id;
  owner_node_id = task.owner_node_id;
  security_domain_id = task.security_domain_id;
  security_epoch = task.security_epoch;
}

abbrev pub is_apart : ProjectNode → ProductTask → Bool
is_apart node task =
    node.project_id != task.project_id
    || node.security_domain_id != task.security_domain_id
    || node.security_epoch != task.security_epoch

-- The part of `execute` up to the idempotency receipt, whose answer is the task: the lookups, the
-- access, and who may act.
unfoldable pub authorize :
    DateApi
    → Directory
    → (at_utc : Text) → ActOnTaskCommand
    → ProductTask
    → Result ExecutionError (Unit {0})
authorize d s at_utc c task = do
  throw_if (task.deleted_at_utc != none) task_not_found
  node ← or_throw (get s.nodes task.owner_node_id) task_not_found
  throw_if (node.deleted_at_utc != none) task_not_found
  throw_if (is_apart node task) task_not_found
  throw_if
      (not (
        can_access_project_object_during_migration d s
          (record {
            membership = s.memberships task.project_id c.principal_id;
            principal_id = c.principal_id;
            capability = action_capability c.action;
            at_utc = at_utc;
          })
          (owned_by task)))
      task_not_found
  through access_error (assert_project_security_stable s task.project_id)
  through action_error (
      assert_authorized task c.principal_id c.action
        (is_project_manager (s.memberships task.project_id c.principal_id)))

-- The person to assign must see the task and be active.
unfoldable pub check_candidate :
    DateApi
    → Directory
    → (at_utc : Text) → ProductTask
    → (candidate : Option Text) → (missing : ActionError) → (not_eligible : ExecutionError)
    → Result ExecutionError (Unit {0})
check_candidate d s at_utc task candidate missing not_eligible = do
  principal_id ← or_throw candidate (action_error missing)
  throw_if
      (not (
        can_access_project_object d s
          (record {
            membership = s.memberships task.project_id principal_id;
            principal_id = principal_id;
            capability = view;
            at_utc = at_utc;
          })
          task.project_id task.security_domain_id))
      not_eligible
  throw_if (not (is_live_principal (get s.principals principal_id))) not_eligible

unfoldable pub check_assignment :
    DateApi
    → Directory
    → (at_utc : Text) → ActOnTaskCommand
    → TaskCommandAction
    → ProductTask
    → Result ExecutionError (Unit {0})
check_assignment d s at_utc c assign_reviewer task =
    check_candidate d s at_utc task c.reviewer_principal_id reviewer_required reviewer_not_eligible
check_assignment d s at_utc c assign_assignee task =
    check_candidate d s at_utc task c.assignee_principal_id assignee_required assignee_not_eligible
check_assignment d s at_utc c _ task = ok tt

abbrev pub file_review :
    MemoryState → ActOnTaskCommand → Option TaskReviewActionRecord → Result StoreError MemoryState
file_review s c none = ok s
file_review s c (some a) = append_review_action c.tenant_id s a

abbrev pub cycle_of : Option TaskReviewActionRecord → Option ℕ
cycle_of none = none
cycle_of (some a) = some a.cycle_number

abbrev pub with_review :
    List TaskReviewActionRecord → Option TaskReviewActionRecord → List TaskReviewActionRecord
with_review actions none = actions
with_review actions (some a) = actions ++ a ∷ []

-- The writes of a command, in their order.
unfoldable pub write :
    MemoryState
    → ActOnTaskCommand
    → (fingerprint : Text) → ProductTask
    → List TaskReviewActionRecord
    → Applied
    → Result StoreError (TaskView × MemoryState)
write s c fingerprint task actions applied = do
  saved ← save_preserving_security_ownership c.tenant_id s task.id applied.updated task.version
  filed ← file_review saved c applied.review_action
  appended ← append_event filed c applied.updated (cycle_of applied.review_action)
  queued ← outbox_enqueue c.tenant_id appended.1 (outbox_for appended.0)
  let value = to_task_view applied.updated (with_review actions applied.review_action)
  recorded ← receipts_insert c.tenant_id queued (record {
    scope = scope_of c;
    fingerprint = fingerprint;
    result = value;
    created_at_utc = c.occurred_at_utc;
  })
  ok (value, recorded)

-- The command is new: its effect on the task, and the writes.
unfoldable pub perform :
    MemoryState
    → ActOnTaskCommand
    → (fingerprint : Text) → ProductTask
    → Result ExecutionError (ActOnTaskResult × MemoryState)
perform s c fingerprint task = do
  throw_if (task.version != c.expected_version) task_version_conflict
  let actions = list_review_actions c.tenant_id s task.id
  applied ← through action_error (apply_action task actions c c.action)
  written ← through store_error (write s c fingerprint task actions applied)
  ok (record { value = written.0; replayed = false }, written.1)

-- By the receipt of the key, if there is one.
unfoldable pub answer_by :
    MemoryState
    → ActOnTaskCommand
    → (fingerprint : Text) → ProductTask
    → Option CommandReceipt
    → Result ExecutionError (ActOnTaskResult × MemoryState)
answer_by s c fingerprint task none = perform s c fingerprint task
answer_by s c fingerprint task (some previous) = do
  throw_if (previous.fingerprint != fingerprint) idempotency_key_reused_with_different_payload
  ok (record { value = previous.result; replayed = true }, s)

-- The work of the transaction.
unfoldable pub act :
    DateApi
    → (hash : Payload → Text) → (at_utc : Text) → ActOnTaskCommand
    → MemoryState
    → Result ExecutionError (ActOnTaskResult × MemoryState)
act d hash at_utc c s = do
  task ← or_throw (tasks_get c.tenant_id s c.task_id) task_not_found
  authorize d (s.directory c.tenant_id) at_utc c task
  check_assignment d (s.directory c.tenant_id) at_utc c c.action task
  answer_by s c (hash (payload_of c)) task (receipts_get c.tenant_id s (scope_of c))

unfoldable pub execute :
    DateApi
    → (hash : Payload → Text) → (at_utc : Text) → ActOnTaskCommand
    → MemoryState
    → Result ExecutionError ActOnTaskResult × MemoryState
execute d hash at_utc c s = elim (validate d c) [
  | err e ↦ (err (action_error e), s)
  | ok done ↦ transaction s (act d hash at_utc c)
]
