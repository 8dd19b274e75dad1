-- ===== src/Memory/Tasks.antt =====
-- packages/adapters/src/memory/persistence.ts: the repository of tasks in a transaction.
use project_process_map.Base.{
  ℕ, ◌+◌, Bool, not, ◌&&◌, ◌||◌, Option, List, [], ◌∷◌, ltb, nat_beq, ◌==◌, ◌!=◌,
}
use project_process_map.Base.Equality.{list_eq, nat_eq, option_eq}
use project_process_map.Base.Results.{Result, ok, ◌>>=◌, ◌>>◌, throw_if, or_throw}
use project_process_map.Base.Dates.{is_some}
use project_process_map.Base.Order.{sort_by}
use project_process_map.Base.Tables.{get, put}
use project_process_map.Base.Text.{Text, text}
use project_process_map.Events.{decimal}
use project_process_map.Store.{keep}
use project_process_map.Tasks.{ProductTask}
use project_process_map.TaskCommands.{
  TaskReviewAction, submitted, accepted, rejected, withdrawn, TaskReviewActionRecord, is_submit,
}
use project_process_map.Memory.{
  MemoryState, StoreError, task_already_exists, task_not_found, task_version_conflict,
  task_security_ownership_immutable, task_review_action_already_exists, key_of, assert_tenant,
}

unfoldable pub tasks_get : Text → MemoryState → (task_id : Text) → Option ProductTask
tasks_get tenant_id s task_id = get s.tasks (key_of tenant_id task_id)

unfoldable pub tasks_insert : Text → MemoryState → ProductTask → Result StoreError MemoryState
tasks_insert tenant_id s task = do
  assert_tenant tenant_id task.tenant_id
  throw_if (is_some (get s.tasks (key_of tenant_id task.id))) task_already_exists
  ok (record s { tasks = put s.tasks (key_of tenant_id task.id) task })

-- Where the task stands, and who owns it.
abbrev pub is_moved : Text → (task_id : Text) → ProductTask → ProductTask → Bool
is_moved tenant_id task_id task existing =
    task.tenant_id != tenant_id
    || task.id != task_id
    || task.project_id != existing.project_id
    || task.owner_node_id != existing.owner_node_id
    || task.security_domain_id != existing.security_domain_id
    || task.security_epoch != existing.security_epoch

unfoldable pub save_preserving_security_ownership :
    Text
    → MemoryState
    → (task_id : Text) → ProductTask
    → (expected_version : ℕ) → Result StoreError MemoryState
save_preserving_security_ownership tenant_id s task_id task expected_version = do
  existing ← or_throw (tasks_get tenant_id s task_id) task_not_found
  throw_if (existing.version != expected_version || task.version != expected_version + 1)
      task_version_conflict
  throw_if (is_moved tenant_id task_id task existing) task_security_ownership_immutable
  ok (record s { tasks = put s.tasks (key_of tenant_id task_id) task })

-- The action in a key.
abbrev pub action_name : TaskReviewAction → Text
action_name submitted = text "submitted"
action_name accepted = text "accepted"
action_name rejected = text "rejected"
action_name withdrawn = text "withdrawn"

abbrev pub review_action_key : Text → TaskReviewActionRecord → Text
review_action_key tenant_id a =
    key_of tenant_id (key_of a.task_id (key_of (decimal a.cycle_number) (action_name a.action)))

unfoldable pub append_review_action :
    Text → MemoryState → TaskReviewActionRecord → Result StoreError MemoryState
append_review_action tenant_id s a = do
  assert_tenant tenant_id a.tenant_id
  throw_if (is_some (get s.review_actions (review_action_key tenant_id a)))
      task_review_action_already_exists
  ok (record s { review_actions = put s.review_actions (review_action_key tenant_id a) a })

abbrev pub values_of {ℓ} : {V : Type ℓ} → List (Text × V) → List V
values_of [] = []
values_of ((key, v) ∷ table) = v ∷ values_of table

-- By the cycle, and a submission before the answers to it.
abbrev pub comes_before : TaskReviewActionRecord → TaskReviewActionRecord → Bool
comes_before left right =
    ltb left.cycle_number right.cycle_number
    || nat_beq left.cycle_number right.cycle_number
      && is_submit left.action
      && not (is_submit right.action)

abbrev pub is_action_of : Text → (task_id : Text) → TaskReviewActionRecord → Bool
is_action_of tenant_id task_id a = a.tenant_id == tenant_id && a.task_id == task_id

unfoldable pub list_review_actions :
    Text → MemoryState → (task_id : Text) → List TaskReviewActionRecord
list_review_actions tenant_id s task_id =
    sort_by comes_before (keep (is_action_of tenant_id task_id) (values_of s.review_actions))
