-- ===== src/TaskCommands/View.antt =====
-- packages/application/src/tasks/create-task.ts: the view of a task that a command returns.
use project_process_map.Base.{ℕ, Bool, Option, List, map}
use project_process_map.Base.Text.{Text}
use project_process_map.Tasks.{ProductTask, TaskLifecycleState, task_lifecycle}
use project_process_map.TaskCommands.{TaskReviewAction, TaskReviewActionRecord}

pub record TaskReviewActionView : Type 0 where
  pub cycle_number : ℕ
  pub action : TaskReviewAction
  pub actor_principal_id : Text
  pub reviewer_principal_id : Option Text
  pub occurred_at_utc : Text
  pub note : Option Text

pub record TaskView : Type 0 where
  pub id : Text
  pub node_id : Text
  pub title : Text
  pub status : TaskLifecycleState
  pub assignee_principal_id : Option Text
  pub requires_acceptance : Bool
  pub reviewer_principal_id : Option Text
  pub version : ℕ
  pub review_history : List TaskReviewActionView

abbrev pub review_view : TaskReviewActionRecord → TaskReviewActionView
review_view a = record {
  cycle_number = a.cycle_number;
  action = a.action;
  actor_principal_id = a.actor_principal_id;
  reviewer_principal_id = a.reviewer_principal_id;
  occurred_at_utc = a.occurred_at_utc;
  note = a.note;
}

unfoldable pub to_task_view : ProductTask → List TaskReviewActionRecord → TaskView
to_task_view task review_actions = record {
  id = task.id;
  node_id = task.owner_node_id;
  title = task.title;
  status = task_lifecycle task.execution_state task.review_state;
  assignee_principal_id = task.assignee_principal_id;
  requires_acceptance = task.requires_acceptance;
  reviewer_principal_id = task.reviewer_principal_id;
  version = task.version;
  review_history = map review_view review_actions;
}
