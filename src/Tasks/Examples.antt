-- ===== src/Tasks/Examples.antt =====
-- A task that needs acceptance, run through its life; the theorems at that task.
use project_process_map.Base.{◌≡◌, refl, true, none, some, inl, arith}
use project_process_map.Base.Results.{ok}
use project_process_map.Base.Text.{text}
use project_process_map.Tasks.{
  TaskExecutionState, not_submitted, accepted, pending, ProductTask, start_task, submit_task,
  accept_task, operations, task_lifecycle,
}
use project_process_map.Tasks.Steps.{
  Reach, here, next, start, submit, accept, IsCoherent, Reach-IsCoherent,
}
use project_process_map.Tasks.Lifecycle.{HasAcceptance, completion_needs_acceptance}
use project_process_map.Tasks.Progress.{CanComplete, can_complete}

abbrev fresh : ProductTask
fresh = record {
  tenant_id = text "t";
  id = text "task-1";
  project_id = text "p";
  owner_node_id = text "n";
  security_domain_id = none;
  security_epoch = 1;
  title = text "draft";
  assignee_principal_id = some (text "ann");
  requires_acceptance = true;
  reviewer_principal_id = some (text "bob");
  execution_state = TaskExecutionState.todo;
  review_state = not_submitted;
  version = 1;
  deleted_at_utc = none;
}

abbrev started : ProductTask
started = record fresh { execution_state = TaskExecutionState.in_progress; version = 2 }

abbrev submitted : ProductTask
submitted = record started { review_state = pending; version = 3 }

abbrev finished : ProductTask
finished = record submitted {
  execution_state = TaskExecutionState.completed;
  review_state = accepted;
  version = 4;
}

start_fresh : start_task fresh ≡ ok started
unfolding operations
start_fresh = refl

submit_started : submit_task started ≡ ok submitted
unfolding operations
submit_started = refl

accept_submitted : accept_task submitted ≡ ok finished
unfolding operations
accept_submitted = refl

abbrev life : Reach fresh finished
life = next (next (next here (start start_fresh)) (submit submit_started)) (accept accept_submitted)

fresh-IsCoherent : IsCoherent fresh
fresh-IsCoherent = ground arith

Reach-IsCoherent_example : IsCoherent finished
Reach-IsCoherent_example = Reach-IsCoherent fresh-IsCoherent life

completion_needs_acceptance_example : HasAcceptance fresh finished
completion_needs_acceptance_example =
    completion_needs_acceptance fresh-IsCoherent refl (λ e. cc) life (inl refl)

can_complete_example : CanComplete fresh
unfolding task_lifecycle
can_complete_example = can_complete fresh fresh-IsCoherent (λ e. cc) (λ e. cc)
