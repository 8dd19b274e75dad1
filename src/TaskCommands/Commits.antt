-- ===== src/TaskCommands/Commits.antt =====
-- What a new command of packages/application/src/tasks/act-on-task.ts writes, all of it.
use project_process_map.Base.{
  ℕ, ◌+◌, ◌≡◌, sym, ap, ◌∙◌, inl, inr, Option, none, some, List, [], ◌∷◌, ◌++◌, arith, Option-cases,
  subst,
}
use project_process_map.Base.Equality.{list_eq, nat_eq, option_eq}
use project_process_map.Base.Results.{ok, >>=-eq-ok}
use project_process_map.Base.Tables.{get, put}
use project_process_map.Base.Text.{Text}
use project_process_map.Events.{DomainEvent}
use project_process_map.Tasks.{ProductTask}
use project_process_map.Tasks.Steps.{Step}
use project_process_map.TaskCommands.{
  TaskReviewActionRecord, TaskCommandAction, start, submit, accept, reject, withdraw, complete,
  assign_assignee, assign_reviewer, ActOnTaskCommand, apply_action, answer, Applied,
}
use project_process_map.TaskCommands.View.{TaskView, to_task_view}
use project_process_map.TaskCommands.Messages.{task_event, outbox_for, append_event}
use project_process_map.TaskCommands.Execution.{scope_of, cycle_of, with_review, write, file_review}
use project_process_map.Memory.{
  CommandReceipt, MemoryState, key_of, receipt_key, event_key, aggregate_key, sequence_key,
  sequences_current, sequences_next, events_append, outbox_enqueue, receipts_insert,
}
use project_process_map.Memory.Tasks.{
  review_action_key, append_review_action, save_preserving_security_ownership,
}
use project_process_map.Memory.Log.{
  receipts_insert-ok, events_append-ok, outbox_enqueue-ok, save-ok, ok-injective,
}

-- An action on a task is one operation of the task.
pub apply-Step :
    (task : ProductTask) (actions : List TaskReviewActionRecord) (c : ActOnTaskCommand)
    (a : TaskCommandAction) (r : Applied)
    → apply_action task actions c a ≡ ok r
    → Step task r.updated
unfolding apply_action answer
apply-Step task actions c start r h = Step.start (ground arith)
apply-Step task actions c submit r h = Step.submit (ground arith)
apply-Step task actions c accept r h = Step.accept (ground arith)
apply-Step task actions c reject r h = Step.reject (ground arith)
apply-Step task actions c withdraw r h = Step.withdraw (ground arith)
apply-Step task actions c complete r h = Step.complete (ground arith)
apply-Step task actions c assign_assignee r h = elim (Option-cases c.assignee_principal_id) [
  | inl nobody ↦ absurd (let never : ⊥ = ground arith in never)
  | inr (p, named) ↦ Step.assign_assignee p (ground arith)
]
apply-Step task actions c assign_reviewer r h = elim (Option-cases c.reviewer_principal_id) [
  | inl nobody ↦ absurd (let never : ⊥ = ground arith in never)
  | inr (p, named) ↦ Step.assign_reviewer p (ground arith)
]

abbrev pub filed :
    Text
    → List (Text × TaskReviewActionRecord)
    → Option TaskReviewActionRecord
    → List (Text × TaskReviewActionRecord)
filed tenant_id rows none = rows
filed tenant_id rows (some a) = put rows (review_action_key tenant_id a) a

-- The event of the command, with the next number of the project.
abbrev pub event_of : MemoryState → ActOnTaskCommand → Applied → DomainEvent
event_of s c applied =
    task_event c applied.updated (cycle_of applied.review_action)
      (sequences_current c.tenant_id s applied.updated.project_id + 1)

abbrev pub receipt_of :
    ActOnTaskCommand → Text → List TaskReviewActionRecord → Applied → CommandReceipt
receipt_of c fingerprint actions applied = record {
  scope = scope_of c;
  fingerprint = fingerprint;
  result = to_task_view applied.updated (with_review actions applied.review_action);
  created_at_utc = c.occurred_at_utc;
}

-- The state with exactly the writes of the command.
abbrev pub committed :
    MemoryState
    → ActOnTaskCommand
    → Text
    → ProductTask
    → List TaskReviewActionRecord
    → Applied
    → MemoryState
committed s c fingerprint task actions applied =
    let e = event_of s c applied in
    record s {
      tasks = put s.tasks (key_of c.tenant_id task.id) applied.updated;
      review_actions = filed c.tenant_id s.review_actions applied.review_action;
      sequences =
          put s.sequences (key_of c.tenant_id applied.updated.project_id) e.project_sequence;
      events = put s.events (event_key c.tenant_id e) e;
      aggregate_versions = s.aggregate_versions ++ aggregate_key c.tenant_id e ∷ [];
      project_event_sequences = s.project_event_sequences ++ sequence_key c.tenant_id e ∷ [];
      outbox = put s.outbox (key_of c.tenant_id (outbox_for e).id) (outbox_for e);
      receipts =
          put s.receipts (receipt_key c.tenant_id (scope_of c))
            (receipt_of c fingerprint actions applied);
    }

file_review-ok :
    (s t : MemoryState) (c : ActOnTaskCommand) (o : Option TaskReviewActionRecord)
    → file_review s c o ≡ ok t
    → t ≡ record s { review_actions = filed c.tenant_id s.review_actions o }
unfolding append_review_action
file_review-ok s t c none h = ground arith
file_review-ok s t c (some a) h = ground arith

-- The numbering of an event and its entry into the log.
abbrev logged : ActOnTaskCommand → DomainEvent → Text → MemoryState → MemoryState
logged c e project_id s = record s {
  sequences = put s.sequences (key_of c.tenant_id project_id) e.project_sequence;
  events = put s.events (event_key c.tenant_id e) e;
  aggregate_versions = s.aggregate_versions ++ aggregate_key c.tenant_id e ∷ [];
  project_event_sequences = s.project_event_sequences ++ sequence_key c.tenant_id e ∷ [];
}

append_event-ok :
    (s : MemoryState) (c : ActOnTaskCommand) (task : ProductTask) (cycle : Option ℕ)
    {done : DomainEvent × MemoryState}
    → append_event s c task cycle ≡ ok done
    → let e = task_event c task cycle (sequences_current c.tenant_id s task.project_id + 1) in
      (get s.events (event_key c.tenant_id e) ≡ none) × (done ≡ (e, logged c e task.project_id s))
unfolding append_event sequences_next task_event
append_event-ok s c task cycle h =
    let (t, added, answer) =
      >>=-eq-ok (events_append c.tenant_id (sequences_next c.tenant_id s task.project_id).1 _) _
        h in
    let e = task_event c task cycle (sequences_next c.tenant_id s task.project_id).0 in
    let (new, after) =
      events_append-ok c.tenant_id (sequences_next c.tenant_id s task.project_id).1 t e added in
    (new, sym (ok-injective answer) ∙ ap (λ t. (e, t)) after)

-- The writes one by one, as functions of the state before them.
abbrev with_record : ActOnTaskCommand → Option TaskReviewActionRecord → MemoryState → MemoryState
with_record c o s = record s { review_actions = filed c.tenant_id s.review_actions o }

abbrev with_event :
    ActOnTaskCommand → ProductTask → Option ℕ → MemoryState → DomainEvent × MemoryState
with_event c task cycle s =
    let e = task_event c task cycle (sequences_current c.tenant_id s task.project_id + 1) in
    (e, logged c e task.project_id s)

abbrev with_message : ActOnTaskCommand → DomainEvent × MemoryState → MemoryState
with_message c (e, s) = record s {
  outbox = put s.outbox (key_of c.tenant_id (outbox_for e).id) (outbox_for e);
}

abbrev with_receipt : ActOnTaskCommand → CommandReceipt → MemoryState → MemoryState
with_receipt c r s = record s { receipts = put s.receipts (receipt_key c.tenant_id (scope_of c)) r }

-- The event of the command is not in the log.
abbrev IsUnlogged : ActOnTaskCommand → Applied → MemoryState → Type 0
IsUnlogged c applied s = get s.events (event_key c.tenant_id (event_of s c applied)) ≡ none

pub write-committed :
    (s : MemoryState) (c : ActOnTaskCommand) (fingerprint : Text) (task : ProductTask)
    (actions : List TaskReviewActionRecord) (applied : Applied) {done : TaskView × MemoryState}
    → write s c fingerprint task actions applied ≡ ok done
    → (done.0 ≡ to_task_view applied.updated (with_review actions applied.review_action))
      × (get s.events (event_key c.tenant_id (event_of s c applied)) ≡ none)
      × (done.1 ≡ committed s c fingerprint task actions applied)
unfolding write append_event sequences_next sequences_current
write-committed s c fingerprint task actions applied h =
    let (saved, is_saved, h1) =
      >>=-eq-ok
        (save_preserving_security_ownership c.tenant_id s task.id applied.updated task.version) _
        h in
    let (reviewed, is_filed, h2) = >>=-eq-ok (file_review saved c applied.review_action) _ h1 in
    let (appended, is_appended, h3) =
      >>=-eq-ok (append_event reviewed c applied.updated (cycle_of applied.review_action)) _ h2 in
    let (queued, is_queued, h4) =
      >>=-eq-ok (outbox_enqueue c.tenant_id appended.1 (outbox_for appended.0)) _ h3 in
    let (recorded, is_recorded, h5) =
      >>=-eq-ok (receipts_insert c.tenant_id queued (receipt_of c fingerprint actions applied)) _
        h4 in
    let e1 = (save-ok c.tenant_id s saved task.id applied.updated task.version is_saved).4 in
    let e2 = file_review-ok saved reviewed c applied.review_action is_filed in
    let (unlogged, e3) =
      append_event-ok reviewed c applied.updated (cycle_of applied.review_action) is_appended in
    let e4 =
      (outbox_enqueue-ok c.tenant_id appended.1 queued (outbox_for appended.0) is_queued).1 in
    let e5 =
      (receipts_insert-ok c.tenant_id queued recorded (receipt_of c fingerprint actions applied)
        is_recorded).1 in
    let answer = ok-injective h5 in
    let cycle = cycle_of applied.review_action in
    (
      ap (λ d. d.0) (sym answer),
      subst (IsUnlogged c applied) (e2 ∙ ap (with_record c applied.review_action) e1) unlogged,
      ap (λ d. d.1) (sym answer)
          ∙ e5
          ∙ ap (with_receipt c (receipt_of c fingerprint actions applied)) (
              e4
              ∙ ap (with_message c) (
                  e3
                  ∙ ap (with_event c applied.updated cycle)
                      (e2 ∙ ap (with_record c applied.review_action) e1))),
    )
