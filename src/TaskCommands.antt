-- ===== src/TaskCommands.antt =====
-- packages/application/src/tasks/act-on-task.ts: the steps of an action on a task that need no
-- store: the validation of the command, who may act, and what the action makes of the task and of
-- its review cycles. A fault stands for the code of the error that is thrown, with the two codes
-- that are thrown for one field each.
pub mod Cycles
pub mod View
pub mod Messages
pub mod Execution
pub mod Commits
pub mod Replay
pub mod Retries
pub mod Journal
pub mod Creation
pub mod Created
use project_process_map.Base.{
  ℕ, ◌+◌, max, Bool, true, false, not, ◌&&◌, ◌||◌, Option, none, some, List, [], ◌∷◌, ◌==◌, ◌!=◌,
  if◌then◌else◌, any, nat_beq,
}
use project_process_map.Base.Equality.{option_eq, list_eq, nat_eq}
use project_process_map.Base.Results.{Result, ok, err, ◌>>=◌, ◌>>◌, throw_if, or_throw}
use project_process_map.Base.Checks.{is_not_positive}
use project_process_map.Base.Dates.{DateApi, is_some, is_utc}
use project_process_map.Base.Text.{Text, trim, is_blank, is_empty}
use project_process_map.Security.Access.{SecurityCapability}
use project_process_map.Tasks.{
  ProductTask, TaskError, start_task, submit_task, accept_task, reject_task, withdraw_task,
  complete_task_without_review, assign_task_reviewer, assign_task_assignee,
}

pub data TaskReviewAction : Type 0 where
  submitted accepted rejected withdrawn : TaskReviewAction

pub record TaskReviewActionRecord : Type 0 where
  pub tenant_id : Text
  pub task_id : Text
  pub cycle_number : ℕ
  pub action : TaskReviewAction
  pub actor_principal_id : Text
  pub reviewer_principal_id : Option Text
  pub occurred_at_utc : Text
  pub note : Option Text

pub data TaskCommandAction : Type 0 where
  start submit accept reject withdraw complete assign_assignee assign_reviewer : TaskCommandAction

pub record ActOnTaskCommand : Type 0 where
  pub tenant_id : Text
  pub command_id : Text
  pub idempotency_key : Text
  pub correlation_id : Text
  pub principal_id : Text
  pub task_id : Text
  pub action : TaskCommandAction
  pub expected_version : ℕ
  pub assignee_principal_id : Option Text
  pub reviewer_principal_id : Option Text
  pub note : Option Text
  pub occurred_at_utc : Text

pub data ActionError : Type 0 where
  validation_failed task_action_forbidden reviewer_required assignee_required : ActionError
  task_review_cycle_not_found task_rejection_reason_required : ActionError
  task_error : TaskError → ActionError

abbrev pub is_submit : TaskReviewAction → Bool
is_submit submitted = true
is_submit _ = false

unfoldable pub action_capability : TaskCommandAction → SecurityCapability
action_capability assign_assignee = SecurityCapability.edit
action_capability assign_reviewer = SecurityCapability.edit
action_capability accept = SecurityCapability.edit
action_capability reject = SecurityCapability.edit
action_capability _ = SecurityCapability.contribute

unfoldable pub normalized_note : Option Text → Option Text
normalized_note none = none
normalized_note (some value) = if is_empty (trim value) then none else some (trim value)

abbrev pub is_review_action : TaskCommandAction → Bool
is_review_action submit = true
is_review_action accept = true
is_review_action reject = true
is_review_action withdraw = true
is_review_action _ = false

abbrev is_assign_assignee : TaskCommandAction → Bool
is_assign_assignee assign_assignee = true
is_assign_assignee _ = false

abbrev is_assign_reviewer : TaskCommandAction → Bool
is_assign_reviewer assign_reviewer = true
is_assign_reviewer _ = false

unfoldable pub validate : DateApi → ActOnTaskCommand → Result ActionError (Unit {0})
validate d c = do
  throw_if
      (any is_blank
        (c.command_id ∷ c.idempotency_key ∷ c.correlation_id ∷ c.principal_id ∷ c.task_id ∷ []))
      validation_failed
  throw_if (is_not_positive c.expected_version) validation_failed
  throw_if (not (is_utc d c.occurred_at_utc)) validation_failed
  throw_if (not (is_assign_assignee c.action) && is_some c.assignee_principal_id) validation_failed
  throw_if (not (is_assign_reviewer c.action) && is_some c.reviewer_principal_id) validation_failed
  throw_if (not (is_review_action c.action) && is_some (normalized_note c.note)) validation_failed

-- `assertAuthorized`, by the action.
unfoldable pub assert_authorized :
    ProductTask
    → (actor : Text) → TaskCommandAction
    → (manager : Bool) → Result ActionError (Unit {0})
assert_authorized task actor assign_reviewer manager = throw_if (not manager) task_action_forbidden
assert_authorized task actor assign_assignee manager = throw_if (not manager) task_action_forbidden
assert_authorized task actor accept manager =
    throw_if (task.reviewer_principal_id != some actor && not manager) task_action_forbidden
assert_authorized task actor reject manager =
    throw_if (task.reviewer_principal_id != some actor && not manager) task_action_forbidden
assert_authorized task actor _ manager =
    throw_if (task.assignee_principal_id != some actor) task_action_forbidden

-- `actions.reduce((maximum, action) => Math.max(maximum, action.cycleNumber), start)`
unfoldable pub last_cycle : ℕ → List TaskReviewActionRecord → ℕ
last_cycle maximum [] = maximum
last_cycle maximum (a ∷ actions) = last_cycle (max maximum a.cycle_number) actions

-- `actions.find(...)` of `latestSubmitted`.
unfoldable pub find_submitted : ℕ → List TaskReviewActionRecord → Option TaskReviewActionRecord
find_submitted maximum [] = none
find_submitted maximum (a ∷ actions) =
    if nat_beq a.cycle_number maximum && is_submit a.action
    then some a
    else find_submitted maximum actions

unfoldable pub latest_submitted : List TaskReviewActionRecord → Option TaskReviewActionRecord
latest_submitted actions = find_submitted (last_cycle 0 actions) actions

-- `record` of an action that is one of the four on a review.
unfoldable pub review_record :
    ActOnTaskCommand → ProductTask → TaskReviewAction → ℕ → Text → TaskReviewActionRecord
review_record c task action cycle_number reviewer = record {
  tenant_id = c.tenant_id;
  task_id = task.id;
  cycle_number = cycle_number;
  action = action;
  actor_principal_id = c.principal_id;
  reviewer_principal_id = some reviewer;
  occurred_at_utc = c.occurred_at_utc;
  note = normalized_note c.note;
}

pub record Applied : Type 0 where
  pub updated : ProductTask
  pub review_action : Option TaskReviewActionRecord

-- An operation of the domain, whose error is passed on, with the record of a review if any.
abbrev pub apply :
    Result TaskError ProductTask → Option TaskReviewActionRecord → Result ActionError Applied
apply (err e) review_action = err (task_error e)
apply (ok updated) review_action = ok (record { updated = updated; review_action = review_action })

-- The answer to the latest submission.
unfoldable pub answer :
    ProductTask
    → List TaskReviewActionRecord
    → ActOnTaskCommand
    → (without_reason : Bool) → Result TaskError ProductTask
    → TaskReviewAction
    → Result ActionError Applied
answer task actions c without_reason operation action = do
  submission ← or_throw (latest_submitted actions) task_review_cycle_not_found
  reviewer ← or_throw submission.reviewer_principal_id reviewer_required
  throw_if without_reason task_rejection_reason_required
  apply operation (some (review_record c task action submission.cycle_number reviewer))

unfoldable pub apply_action :
    ProductTask
    → List TaskReviewActionRecord
    → ActOnTaskCommand
    → TaskCommandAction
    → Result ActionError Applied
apply_action task actions c start = apply (start_task task) none
apply_action task actions c complete = apply (complete_task_without_review task) none
apply_action task actions c assign_reviewer = do
  reviewer ← or_throw c.reviewer_principal_id reviewer_required
  apply (assign_task_reviewer task reviewer) none
apply_action task actions c assign_assignee = do
  assignee ← or_throw c.assignee_principal_id assignee_required
  apply (assign_task_assignee task assignee) none
apply_action task actions c submit =
    if not task.requires_acceptance then apply (submit_task task) none else (do
      reviewer ← or_throw task.reviewer_principal_id reviewer_required
      apply (submit_task task)
          (some (review_record c task submitted (last_cycle 0 actions + 1) reviewer)))
apply_action task actions c accept = answer task actions c false (accept_task task) accepted
apply_action task actions c reject =
    answer task actions c (not (is_some (normalized_note c.note))) (reject_task task) rejected
apply_action task actions c withdraw = answer task actions c false (withdraw_task task) withdrawn
