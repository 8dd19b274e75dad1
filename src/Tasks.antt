-- ===== src/Tasks.antt =====
-- packages/domain/src/tasks.ts: the record of a task, its two state fields and the operations on
-- them. A method that throws returns the error's code.
pub mod Lifecycle
pub mod Steps
pub mod Progress
mod Examples
use project_process_map.Base.{
  ℕ, ◌+◌, ◌≡◌, refl, Bool, true, false, not, ◌&&◌, ◌||◌, Option, none, some, arith, if◌then◌else◌,
  Eq, ◌==◌, ◌!=◌,
}
use project_process_map.Base.Equality.{enum_eq, option_eq, list_eq, nat_eq}
use project_process_map.Base.Results.{Result, ok, err, ◌>>=◌, ◌>>◌, throw_if}
use project_process_map.Base.Text.{Text}

pub data TaskExecutionState : Type 0 where
  todo in_progress completed canceled promoted : TaskExecutionState

pub data TaskReviewState : Type 0 where
  not_required not_submitted pending accepted rejected withdrawn : TaskReviewState

pub data TaskLifecycleState : Type 0 where
  todo in_progress pending_review completed canceled promoted : TaskLifecycleState

abbrev execution_rank : TaskExecutionState → ℕ
execution_rank TaskExecutionState.todo = 0
execution_rank TaskExecutionState.in_progress = 1
execution_rank TaskExecutionState.completed = 2
execution_rank TaskExecutionState.canceled = 3
execution_rank TaskExecutionState.promoted = 4

pub execution_rank_injective :
    (a b : TaskExecutionState) → execution_rank a ≡ execution_rank b → a ≡ b
execution_rank_injective a b h = ground arith

instance abbrev pub execution_eq : Eq TaskExecutionState
execution_eq = enum_eq execution_rank execution_rank_injective

abbrev review_rank : TaskReviewState → ℕ
review_rank not_required = 0
review_rank not_submitted = 1
review_rank pending = 2
review_rank accepted = 3
review_rank rejected = 4
review_rank withdrawn = 5

pub review_rank_injective : (a b : TaskReviewState) → review_rank a ≡ review_rank b → a ≡ b
review_rank_injective a b h = ground arith

instance abbrev pub review_eq : Eq TaskReviewState
review_eq = enum_eq review_rank review_rank_injective

pub record ProductTask : Type 0 where
  pub tenant_id : Text
  pub id : Text
  pub project_id : Text
  pub owner_node_id : Text
  pub security_domain_id : Option Text
  pub security_epoch : ℕ
  pub title : Text
  pub assignee_principal_id : Option Text
  pub requires_acceptance : Bool
  pub reviewer_principal_id : Option Text
  pub execution_state : TaskExecutionState
  pub review_state : TaskReviewState
  pub version : ℕ
  pub deleted_at_utc : Option Text

pub data TaskError : Type 0 where
  task_is_terminal task_start_transition_invalid task_review_not_required : TaskError
  task_submit_transition_invalid task_accept_transition_invalid : TaskError
  task_reject_transition_invalid task_withdraw_transition_invalid : TaskError
  task_direct_complete_forbidden task_reviewer_locked_during_review : TaskError
  task_reviewer_unchanged task_assignee_locked_during_review task_assignee_unchanged : TaskError
  task_pending_review_cannot_cancel task_promote_transition_invalid : TaskError
  task_promote_requires_acceptance : TaskError

unfoldable pub task_lifecycle : TaskExecutionState → TaskReviewState → TaskLifecycleState
task_lifecycle TaskExecutionState.canceled review = TaskLifecycleState.canceled
task_lifecycle TaskExecutionState.promoted review = TaskLifecycleState.promoted
task_lifecycle execution review =
    if review == pending
    then TaskLifecycleState.pending_review
    else if review == accepted || execution == TaskExecutionState.completed
    then TaskLifecycleState.completed
    else if execution == TaskExecutionState.todo
    then TaskLifecycleState.todo
    else TaskLifecycleState.in_progress

-- `completed`, `canceled` or `promoted`.
abbrev pub is_terminal : TaskExecutionState → Bool
is_terminal e =
    e == TaskExecutionState.completed
    || e == TaskExecutionState.canceled
    || e == TaskExecutionState.promoted

unfoldable pub assert_mutable : ProductTask → Result TaskError (Unit {0})
assert_mutable task = throw_if (is_terminal task.execution_state) task_is_terminal

unfoldable pub start_task : ProductTask → Result TaskError ProductTask
unfolding assert_mutable
start_task task = do
  assert_mutable task
  throw_if (task.execution_state != TaskExecutionState.todo) task_start_transition_invalid
  ok (record task { execution_state = TaskExecutionState.in_progress; version = task.version + 1 })

unfoldable pub submit_task : ProductTask → Result TaskError ProductTask
unfolding assert_mutable
submit_task task = do
  assert_mutable task
  throw_if (not task.requires_acceptance) task_review_not_required
  throw_if (task.execution_state != TaskExecutionState.in_progress) task_submit_transition_invalid
  throw_if
      (task.review_state != not_submitted
        && task.review_state != rejected
        && task.review_state != withdrawn)
      task_submit_transition_invalid
  ok (record task { review_state = pending; version = task.version + 1 })

-- The condition of the three operations on a submitted task.
abbrev not_under_review : ProductTask → Bool
not_under_review task =
    task.review_state != pending || task.execution_state != TaskExecutionState.in_progress

unfoldable pub accept_task : ProductTask → Result TaskError ProductTask
accept_task task = do
  throw_if (not_under_review task) task_accept_transition_invalid
  ok (record task {
    execution_state = TaskExecutionState.completed;
    review_state = accepted;
    version = task.version + 1;
  })

unfoldable pub reject_task : ProductTask → Result TaskError ProductTask
reject_task task = do
  throw_if (not_under_review task) task_reject_transition_invalid
  ok (record task { review_state = rejected; version = task.version + 1 })

unfoldable pub withdraw_task : ProductTask → Result TaskError ProductTask
withdraw_task task = do
  throw_if (not_under_review task) task_withdraw_transition_invalid
  ok (record task { review_state = withdrawn; version = task.version + 1 })

unfoldable pub complete_task_without_review : ProductTask → Result TaskError ProductTask
unfolding assert_mutable
complete_task_without_review task = do
  assert_mutable task
  throw_if
      (task.requires_acceptance
        || task.review_state != not_required
        || task.execution_state != TaskExecutionState.in_progress)
      task_direct_complete_forbidden
  ok (record task { execution_state = TaskExecutionState.completed; version = task.version + 1 })

unfoldable pub assign_task_reviewer : ProductTask → Text → Result TaskError ProductTask
unfolding assert_mutable
assign_task_reviewer task reviewer = do
  assert_mutable task
  throw_if (not task.requires_acceptance) task_review_not_required
  throw_if (task.review_state == pending) task_reviewer_locked_during_review
  throw_if (task.reviewer_principal_id == some reviewer) task_reviewer_unchanged
  ok (record task { reviewer_principal_id = some reviewer; version = task.version + 1 })

unfoldable pub assign_task_assignee : ProductTask → Text → Result TaskError ProductTask
unfolding assert_mutable
assign_task_assignee task assignee = do
  assert_mutable task
  throw_if (task.review_state == pending) task_assignee_locked_during_review
  throw_if (task.assignee_principal_id == some assignee) task_assignee_unchanged
  ok (record task { assignee_principal_id = some assignee; version = task.version + 1 })

unfoldable pub cancel_task : ProductTask → Result TaskError ProductTask
unfolding assert_mutable
cancel_task task = do
  assert_mutable task
  throw_if (task.review_state == pending) task_pending_review_cannot_cancel
  ok (record task { execution_state = TaskExecutionState.canceled; version = task.version + 1 })

unfoldable pub promote_task : ProductTask → Result TaskError ProductTask
promote_task task = do
  throw_if (task.execution_state != TaskExecutionState.completed) task_promote_transition_invalid
  throw_if (task.requires_acceptance && task.review_state != accepted)
      task_promote_requires_acceptance
  ok (record task { execution_state = TaskExecutionState.promoted; version = task.version + 1 })

-- The operations, opened together.
operations : Unit {0}
unfolding start_task submit_task accept_task reject_task withdraw_task complete_task_without_review
    assign_task_reviewer assign_task_assignee cancel_task promote_task
operations = tt
