-- ===== src/TaskCommands/Replay.antt =====
-- What packages/application/src/tasks/act-on-task.ts promises a client that sends a command again.
use project_process_map.Base.{
  ◌≡◌, refl, sym, ap, ◌∙◌, ◌⊎◌, inl, inr, Bool, true, false, Option, none, some, List, arith, ◌!=◌,
}
use project_process_map.Base.Equality.{list_eq, nat_eq, option_eq, eq_of}
use project_process_map.Base.Results.{ok, >>=-eq-ok, throw_if, or_throw}
use project_process_map.Base.Dates.{DateApi}
use project_process_map.Base.Tables.{get}
use project_process_map.Base.Text.{Text}
use project_process_map.Store.{Directory}
use project_process_map.Projects.{is_project_manager}
use project_process_map.Tasks.{
  ProductTask, start_task, submit_task, accept_task, reject_task, withdraw_task,
  complete_task_without_review,
}
use project_process_map.Tasks.Steps.{Keeps}
use project_process_map.TaskCommands.{
  TaskReviewActionRecord, TaskCommandAction, start, submit, accept, reject, withdraw, complete,
  assign_assignee, assign_reviewer, ActOnTaskCommand, apply_action, answer, Applied,
  assert_authorized,
}
use project_process_map.TaskCommands.View.{to_task_view}
use project_process_map.TaskCommands.Execution.{
  Payload, ActOnTaskResult, scope_of, payload_of, with_review, write, perform, authorize,
  check_assignment, check_candidate, answer_by, act, task_version_conflict, task_not_found,
  action_error, store_error, idempotency_key_reused_with_different_payload,
}
use project_process_map.TaskCommands.Commits.{committed, event_of, write-committed}
use project_process_map.Memory.{CommandReceipt, MemoryState, event_key, receipts_get, through}
use project_process_map.Memory.Tasks.{tasks_get, list_review_actions}
use project_process_map.Memory.Log.{through-ok, or_throw-some, ok-injective, after_check}

-- Who may act on the task after the action is who might before.
pub authorized_again :
    (task : ProductTask) (actions : List TaskReviewActionRecord) (c : ActOnTaskCommand)
    (a : TaskCommandAction) (r : Applied) (actor : Text) (manager : Bool)
    → apply_action task actions c a ≡ ok r
    → assert_authorized r.updated actor a manager ≡ assert_authorized task actor a manager
unfolding apply_action answer assert_authorized start_task submit_task accept_task reject_task
    withdraw_task complete_task_without_review
authorized_again task actions c start r actor manager h = ground arith
authorized_again task actions c submit r actor manager h = ground arith
authorized_again task actions c accept r actor manager h = ground arith
authorized_again task actions c reject r actor manager h = ground arith
authorized_again task actions c withdraw r actor manager h = ground arith
authorized_again task actions c complete r actor manager h = ground arith
authorized_again task actions c assign_assignee r actor manager h = refl
authorized_again task actions c assign_reviewer r actor manager h = refl

pub authorize-Keeps :
    (d : DateApi) (s : Directory) (at_utc : Text) (c : ActOnTaskCommand) (t u : ProductTask)
    → Keeps t u
    → ((manager : Bool)
        → assert_authorized u c.principal_id c.action manager
          ≡ assert_authorized t c.principal_id c.action manager)
    → authorize d s at_utc c u ≡ authorize d s at_utc c t
unfolding authorize
authorize-Keeps d s at_utc c t u k again =
    rw (again (is_project_manager (s.memberships u.project_id c.principal_id)))
      (rw k.deletion (rw k.owner_node (rw k.project (rw k.domain (rw k.epoch refl)))))

pub check_assignment-Keeps :
    (d : DateApi) (s : Directory) (at_utc : Text) (c : ActOnTaskCommand) (a : TaskCommandAction)
    (t u : ProductTask)
    → Keeps t u
    → check_assignment d s at_utc c a u ≡ check_assignment d s at_utc c a t
unfolding check_assignment check_candidate
check_assignment-Keeps d s at_utc c assign_assignee t u k = rw k.project (rw k.domain refl)
check_assignment-Keeps d s at_utc c assign_reviewer t u k = rw k.project (rw k.domain refl)
check_assignment-Keeps d s at_utc c start t u k = refl
check_assignment-Keeps d s at_utc c submit t u k = refl
check_assignment-Keeps d s at_utc c accept t u k = refl
check_assignment-Keeps d s at_utc c reject t u k = refl
check_assignment-Keeps d s at_utc c withdraw t u k = refl
check_assignment-Keeps d s at_utc c complete t u k = refl

pub act-ok :
    (d : DateApi) (hash : Payload → Text) (at_utc : Text) (c : ActOnTaskCommand) (s : MemoryState)
    {done : ActOnTaskResult × MemoryState}
    → act d hash at_utc c s ≡ ok done
    → (task : ProductTask) × (tasks_get c.tenant_id s c.task_id ≡ some task)
      × (authorize d (s.directory c.tenant_id) at_utc c task ≡ ok tt)
      × (check_assignment d (s.directory c.tenant_id) at_utc c c.action task ≡ ok tt)
      × (answer_by s c (hash (payload_of c)) task (receipts_get c.tenant_id s (scope_of c))
          ≡ ok done)
unfolding act
act-ok d hash at_utc c s h =
    let (task, found, h1) =
      >>=-eq-ok (or_throw (tasks_get c.tenant_id s c.task_id) task_not_found) _ h in
    let (allowed, h2) = after_check (authorize d (s.directory c.tenant_id) at_utc c task) _ h1 in
    let (assigned, h3) =
      after_check (check_assignment d (s.directory c.tenant_id) at_utc c c.action task) _ h2 in
    (task, or_throw-some _ task_not_found found, allowed, assigned, h3)

-- The other way: with these, `act` answers by the receipt.
pub ok-act :
    (d : DateApi) (hash : Payload → Text) (at_utc : Text) (c : ActOnTaskCommand) (s : MemoryState)
    (task : ProductTask) {o : Option CommandReceipt}
    → tasks_get c.tenant_id s c.task_id ≡ some task
    → authorize d (s.directory c.tenant_id) at_utc c task ≡ ok tt
    → check_assignment d (s.directory c.tenant_id) at_utc c c.action task ≡ ok tt
    → receipts_get c.tenant_id s (scope_of c) ≡ o
    → act d hash at_utc c s ≡ answer_by s c (hash (payload_of c)) task o
unfolding act
ok-act d hash at_utc c s task found allowed assigned receipt =
    rw found (rw allowed (rw assigned (rw receipt refl)))

perform-ok :
    (s : MemoryState) (c : ActOnTaskCommand) (fingerprint : Text) (task : ProductTask)
    {done : ActOnTaskResult × MemoryState}
    → perform s c fingerprint task ≡ ok done
    → let actions = list_review_actions c.tenant_id s task.id in
      (applied : Applied) × (task.version ≡ c.expected_version)
      × (apply_action task actions c c.action ≡ ok applied)
      × (done.0 ≡ (record {
        value = to_task_view applied.updated (with_review actions applied.review_action);
        replayed = false;
      }))
      × (get s.events (event_key c.tenant_id (event_of s c applied)) ≡ none)
      × (done.1 ≡ committed s c fingerprint task actions applied)
unfolding perform
perform-ok s c fingerprint task h =
    let actions = list_review_actions c.tenant_id s task.id in
    let (same, h1) =
      after_check (throw_if (task.version != c.expected_version) task_version_conflict) _ h in
    let (applied, is_applied, h2) =
      >>=-eq-ok (through action_error (apply_action task actions c c.action)) _ h1 in
    let (written, is_written, h3) =
      >>=-eq-ok (through store_error (write s c fingerprint task actions applied)) _ h2 in
    let (value, unlogged, state) =
      write-committed s c fingerprint task actions applied (through-ok store_error _ is_written) in
    let answer = ok-injective h3 in
    (
      applied,
      eq_of task.version c.expected_version (ground arith),
      through-ok action_error _ is_applied,
      ap (λ d. d.0) (sym answer) ∙ ap (λ v. record { value = v; replayed = false }) value,
      unlogged,
      ap (λ d. d.1) (sym answer) ∙ state,
    )

-- The key has a receipt of the same fingerprint, which gives the answer; nothing is written.
pub record IsReplay (hash : Payload → Text) (c : ActOnTaskCommand) (s : MemoryState)
    (r : ActOnTaskResult) (t : MemoryState) : Type 0 where
  pub receipt : CommandReceipt
  pub filed : receipts_get c.tenant_id s (scope_of c) ≡ some receipt
  pub fingerprint : receipt.fingerprint ≡ hash (payload_of c)
  pub answer : r ≡ (record { value = receipt.result; replayed = true })
  pub kept : t ≡ s

-- The key is new, and the action was done on the version that the client knew: the state has the
-- writes of the command and no others.
pub record IsCommit (hash : Payload → Text) (c : ActOnTaskCommand) (s : MemoryState)
    (r : ActOnTaskResult) (t : MemoryState) : Type 0 where
  pub task : ProductTask
  pub applied : Applied
  pub found : tasks_get c.tenant_id s c.task_id ≡ some task
  pub current : task.version ≡ c.expected_version
  pub fresh : receipts_get c.tenant_id s (scope_of c) ≡ none
  pub done : apply_action task (list_review_actions c.tenant_id s task.id) c c.action ≡ ok applied
  pub answer : r ≡ (record {
    value =
        to_task_view applied.updated
          (with_review (list_review_actions c.tenant_id s task.id) applied.review_action);
    replayed = false;
  })
  pub unlogged : get s.events (event_key c.tenant_id (event_of s c applied)) ≡ none
  pub written :
      t
      ≡ committed s c (hash (payload_of c)) task (list_review_actions c.tenant_id s task.id) applied

pub answer-cases :
    (hash : Payload → Text) (c : ActOnTaskCommand) (s : MemoryState) (task : ProductTask)
    (o : Option CommandReceipt) (r : ActOnTaskResult) (t : MemoryState)
    → tasks_get c.tenant_id s c.task_id ≡ some task
    → receipts_get c.tenant_id s (scope_of c) ≡ o
    → answer_by s c (hash (payload_of c)) task o ≡ ok (r, t)
    → IsReplay hash c s r t ⊎ IsCommit hash c s r t
unfolding answer_by
answer-cases hash c s task none r t found receipt h =
    let (applied, current, is_applied, value, unlogged, state) =
      perform-ok s c (hash (payload_of c)) task h in
    inr (record {
      task = task;
      applied = applied;
      found = found;
      current = current;
      fresh = receipt;
      done = is_applied;
      answer = value;
      unlogged = unlogged;
      written = state;
    })
answer-cases hash c s task (some previous) r t found receipt h =
    let (same, h1) =
      after_check
        (throw_if (previous.fingerprint != hash (payload_of c))
          idempotency_key_reused_with_different_payload)
        _ h in
    let answer = ok-injective h1 in
    inl (record {
      receipt = previous;
      filed = receipt;
      fingerprint = eq_of previous.fingerprint (hash (payload_of c)) (ground arith);
      answer = ap (λ d. d.0) (sym answer);
      kept = ap (λ d. d.1) (sym answer);
    })
