-- ===== src/Examples/TaskCommands.antt =====
-- An answer to the submission of a task.
use project_process_map.Base.{◌≡◌, refl, true, none, some, [], ◌∷◌}
use project_process_map.Base.Results.{ok}
use project_process_map.Base.Text.{text}
use project_process_map.Tasks.{
  ProductTask, TaskExecutionState, TaskReviewState, pending, accept_task,
}
use project_process_map.TaskCommands.{
  TaskReviewActionRecord, submitted, accepted, ActOnTaskCommand, accept, last_cycle, find_submitted,
  latest_submitted, review_record, normalized_note, Applied, answer, apply_action,
}
use project_process_map.TaskCommands.Cycles.{IsCycleStep, apply-IsCycleStep}
use project_process_map.Examples.Clock.{noon, text_tests}

abbrev pub task : ProductTask
task = record {
  tenant_id = text "t";
  id = text "task-1";
  project_id = text "p";
  owner_node_id = text "n";
  security_domain_id = none;
  security_epoch = 1;
  title = text "draft";
  assignee_principal_id = some (text "ann");
  requires_acceptance = true;
  reviewer_principal_id = some (text "bob");
  execution_state = TaskExecutionState.in_progress;
  review_state = pending;
  version = 3;
  deleted_at_utc = none;
}

abbrev pub submission : TaskReviewActionRecord
submission = record {
  tenant_id = text "t";
  task_id = text "task-1";
  cycle_number = 2;
  action = submitted;
  actor_principal_id = text "ann";
  reviewer_principal_id = some (text "bob");
  occurred_at_utc = noon;
  note = none;
}

abbrev pub command : ActOnTaskCommand
command = record {
  tenant_id = text "t";
  command_id = text "c";
  idempotency_key = text "k";
  correlation_id = text "r";
  principal_id = text "bob";
  task_id = text "task-1";
  action = accept;
  expected_version = 3;
  assignee_principal_id = none;
  reviewer_principal_id = none;
  note = some (text "good");
  occurred_at_utc = noon;
}

abbrev pub acceptance : TaskReviewActionRecord
acceptance = record submission {
  action = accepted;
  actor_principal_id = text "bob";
  note = some (text "good");
}

abbrev pub done : Applied
done = record {
  updated = record task {
    execution_state = TaskExecutionState.completed;
    review_state = TaskReviewState.accepted;
    version = 4;
  };
  review_action = some acceptance;
}

accept_submission : apply_action task (submission ∷ []) command accept ≡ ok done
unfolding apply_action answer latest_submitted find_submitted last_cycle review_record
    normalized_note accept_task text_tests
accept_submission = refl

apply-IsCycleStep_example : IsCycleStep (submission ∷ []) acceptance
apply-IsCycleStep_example =
    apply-IsCycleStep task (submission ∷ []) command accept done acceptance accept_submission refl
