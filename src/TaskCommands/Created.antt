-- ===== src/TaskCommands/Created.antt =====
-- What the creation of a task by packages/application/src/tasks/create-task.ts leaves behind.
use project_process_map.Base.{
  ◌≡◌, refl, sym, ap, ◌∙◌, Bool, true, false, not, Option, none, some, [], arith,
}
use project_process_map.Base.Equality.{list_eq, nat_eq}
use project_process_map.Base.Results.{Result, ok, err, >>=-eq-ok, throw_if, throw_if-ok_iff}
use project_process_map.Base.Checks.{given_and, IfGiven, IfGiven-iff, not-false_iff}
use project_process_map.Base.Dates.{DateApi, is_some}
use project_process_map.Base.Tables.{get, put, get-put_self}
use project_process_map.Base.Text.{Text}
use project_process_map.Projects.{ProjectNode}
use project_process_map.Reviewers.{
  ReviewTables, ReviewerError, ResolvedReviewer, resolve_task_reviewer,
}
use project_process_map.Reviewers.Choice.{IsChosen, resolved-IsChosen}
use project_process_map.Tasks.{ProductTask, TaskExecutionState, not_submitted, not_required}
use project_process_map.Tasks.Steps.{IsCoherent}
use project_process_map.TaskCommands.View.{TaskView, to_task_view}
use project_process_map.TaskCommands.Messages.{outbox_for}
use project_process_map.TaskCommands.Creation.{
  CreateTaskCommand, names_needless_reviewer, may_be_assigned, resolve_reviewer, reviewer_of,
  review_params, new_task, creation_event, creation_scope, is_milestone, schedule_projection,
  write_creation, create, store_error, milestone_task_forbidden, node_deleted, task_already_exists,
  reviewer_not_allowed, assignee_not_eligible,
}
use project_process_map.Memory.{
  CommandReceipt, MemoryState, key_of, sequences_next, events_append, outbox_enqueue,
  receipts_insert,
}
use project_process_map.Memory.Tasks.{tasks_get, tasks_insert}
use project_process_map.Memory.Log.{
  after_check, ok-injective, through-ok, receipts_insert-ok, events_append-ok, outbox_enqueue-ok,
  tasks_insert-ok, jobs_schedule-tasks,
}

schedule_projection-tasks :
    (scheduled : Bool) (c : CreateTaskCommand) (task : ProductTask) (s t : MemoryState)
    → schedule_projection scheduled c task s ≡ ok t
    → t.tasks ≡ s.tasks
unfolding schedule_projection
schedule_projection-tasks true c task s t h = jobs_schedule-tasks c.tenant_id s t _ h
schedule_projection-tasks false c task s t h = ap (λ s. s.tasks) (sym (ok-injective h))

write_creation-ok :
    (scheduled : Bool) (s : MemoryState) (c : CreateTaskCommand) (fingerprint : Text)
    (task : ProductTask) {done : TaskView × MemoryState}
    → write_creation scheduled s c fingerprint task ≡ ok done
    → (get s.tasks (key_of c.tenant_id task.id) ≡ none)
      × (done.0 ≡ to_task_view task [])
      × (done.1.tasks ≡ put s.tasks (key_of c.tenant_id task.id) task)
unfolding write_creation sequences_next
write_creation-ok scheduled s c fingerprint task h =
    let (inserted, is_inserted, h1) = >>=-eq-ok (tasks_insert c.tenant_id s task) _ h in
    let counted = sequences_next c.tenant_id inserted c.project_id in
    let e = creation_event c task counted.0 in
    let (appended, is_appended, h2) = >>=-eq-ok (events_append c.tenant_id counted.1 e) _ h1 in
    let (queued, is_queued, h3) =
      >>=-eq-ok (outbox_enqueue c.tenant_id appended (outbox_for e)) _ h2 in
    let (planned, is_planned, h4) = >>=-eq-ok (schedule_projection scheduled c task queued) _ h3 in
    let receipt : CommandReceipt = record {
      scope = creation_scope c;
      fingerprint = fingerprint;
      result = to_task_view task [];
      created_at_utc = c.occurred_at_utc;
    } in
    let (recorded, is_recorded, h5) =
      >>=-eq-ok (receipts_insert c.tenant_id planned receipt) _ h4 in
    let (free, e1) = tasks_insert-ok c.tenant_id s inserted task is_inserted in
    let e2 = (events_append-ok c.tenant_id counted.1 appended e is_appended).1 in
    let e3 = (outbox_enqueue-ok c.tenant_id appended queued (outbox_for e) is_queued).1 in
    let e4 = schedule_projection-tasks scheduled c task queued planned is_planned in
    let e5 = (receipts_insert-ok c.tenant_id planned recorded receipt is_recorded).1 in
    let answer = ok-injective h5 in
    (
      free,
      ap (λ d. d.0) (sym answer),
      ap (λ d. d.1.tasks) (sym answer)
          ∙ ap (λ s. s.tasks) e5
          ∙ e4
          ∙ ap (λ s. s.tasks) e3
          ∙ ap (λ s. s.tasks) e2
          ∙ ap (λ s. s.tasks) e1,
    )

not_there : {A : Type 0} (o : Option A) → is_some o ≡ false → o ≡ none
not_there none h = refl
not_there (some x) h = cc

new_task-IsCoherent :
    (c : CreateTaskCommand) (node : ProjectNode) (reviewer : Option Text)
    → IsCoherent (new_task c node reviewer)
unfolding new_task
new_task-IsCoherent c node reviewer = ground arith

-- A new task as the command asks for it, stored under a key that was free, at the place of its node;
-- who reviews it is chosen, and who does it may see it.
pub record IsCreated (d : DateApi) (tables : ReviewTables) (at_utc : Text) (c : CreateTaskCommand)
    (node : ProjectNode) (s : MemoryState) (v : TaskView) (t : MemoryState) : Type 0 where
  pub task : ProductTask
  pub free : tasks_get c.tenant_id s c.task_id ≡ none
  pub stored : tasks_get c.tenant_id t c.task_id ≡ some task
  pub shown : v ≡ to_task_view task []
  pub coherent : IsCoherent task
  pub identity :
      (task.tenant_id ≡ c.tenant_id)
      × (task.id ≡ c.task_id)
      × (task.project_id ≡ c.project_id)
      × (task.title ≡ c.title)
  pub assignee_is : task.assignee_principal_id ≡ c.assignee_principal_id
  pub acceptance_is : task.requires_acceptance ≡ c.requires_acceptance
  pub begins :
      (task.execution_state ≡ TaskExecutionState.todo)
      × (task.version ≡ 1)
      × (task.deleted_at_utc ≡ none)
  pub node_is : task.owner_node_id ≡ node.id
  pub domain_is : task.security_domain_id ≡ node.security_domain_id
  pub epoch_is : task.security_epoch ≡ node.security_epoch
  pub live : node.deleted_at_utc ≡ none
  pub assigned :
      IfGiven
        (λ assignee. may_be_assigned d tables.directory at_utc c node assignee ≡ true)
        task.assignee_principal_id
  pub reviewed :
      task.requires_acceptance ≡ true
      → (r : ResolvedReviewer) × (task.reviewer_principal_id ≡ some r.reviewer_principal_id)
        × IsChosen d tables (review_params at_utc c node) r
  pub unreviewed : task.requires_acceptance ≡ false → task.reviewer_principal_id ≡ none
  pub waits : task.requires_acceptance ≡ true → task.review_state ≡ not_submitted
  pub waits_not : task.requires_acceptance ≡ false → task.review_state ≡ not_required

module _ (d : DateApi) (tables : ReviewTables) (at_utc : Text) (c : CreateTaskCommand)
    (node : ProjectNode) where
  resolved :
      (reviewer : Option Text)
      → resolve_reviewer d tables at_utc c node ≡ ok reviewer
      → c.requires_acceptance ≡ true
      → (r : ResolvedReviewer) × (reviewer ≡ some r.reviewer_principal_id)
        × IsChosen d tables (review_params at_utc c node) r
  unfolding resolve_reviewer
  resolved reviewer h needed =
      let same : resolve_reviewer d tables at_utc c node
          ≡ reviewer_of (resolve_task_reviewer d tables (review_params at_utc c node)) =
        rw needed refl in
      by_result (resolve_task_reviewer d tables (review_params at_utc c node)) refl (sym same ∙ h)
    where
      by_result :
          (x : Result ReviewerError ResolvedReviewer)
          → resolve_task_reviewer d tables (review_params at_utc c node) ≡ x
          → reviewer_of x ≡ ok reviewer
          → (r : ResolvedReviewer) × (reviewer ≡ some r.reviewer_principal_id)
            × IsChosen d tables (review_params at_utc c node) r
      by_result (err e) is h = absurd (let never : ⊥ = cc in never)
      by_result (ok r) is h =
          (r, sym (ok-injective h), resolved-IsChosen d tables (review_params at_utc c node) r is)

  needless :
      (reviewer : Option Text)
      → resolve_reviewer d tables at_utc c node ≡ ok reviewer
      → c.requires_acceptance ≡ false
      → reviewer ≡ none
  unfolding resolve_reviewer
  needless reviewer h free =
      let same : resolve_reviewer d tables at_utc c node ≡ ok none = rw free refl in
      ok-injective (sym h ∙ same)

  -- A creation that answers leaves a new task, under a key that was free, with the identity, the
  -- title, the assignee and the need of acceptance of the command, in its first version, to be done
  -- and not deleted; it stands where its node stands, which is not deleted; its states fit together;
  -- its assignee, if there is one, is active and may see it; and if it needs acceptance it waits for
  -- a submission and has a reviewer chosen by the order of the levels, else it has neither.
  pub create-IsCreated :
      (scheduled : Bool) (fingerprint : Text) (s t : MemoryState) (v : TaskView)
      → create d tables scheduled at_utc fingerprint c node s ≡ ok (v, t)
      → IsCreated d tables at_utc c node s v t
  unfolding create tasks_get new_task
  create-IsCreated scheduled fingerprint s t v h =
      let (_, h1) = after_check (throw_if (is_milestone node.kind) milestone_task_forbidden) _ h in
      let (live, h2) = after_check (throw_if (is_some node.deleted_at_utc) node_deleted) _ h1 in
      let (free, h3) =
        after_check (throw_if (is_some (tasks_get c.tenant_id s c.task_id)) task_already_exists) _
          h2 in
      let (_, h4) = after_check (throw_if (names_needless_reviewer c) reviewer_not_allowed) _ h3 in
      let bad : Text → Bool =
        λ assignee. not (may_be_assigned d tables.directory at_utc c node assignee) in
      let (able, h5) =
        after_check (throw_if (given_and bad c.assignee_principal_id) assignee_not_eligible) _ h4 in
      let (reviewer, is_reviewer, h6) = >>=-eq-ok (resolve_reviewer d tables at_utc c node) _ h5 in
      let task = new_task c node reviewer in
      let (_, shown, tasks) =
        write_creation-ok scheduled s c fingerprint task
          (through-ok store_error (write_creation scheduled s c fingerprint task) h6) in
      record {
        task = task;
        free = not_there _ ((throw_if-ok_iff _ task_already_exists).0 free);
        stored =
            ap (λ table. get table (key_of c.tenant_id c.task_id)) tasks
            ∙ get-put_self s.tasks (key_of c.tenant_id c.task_id) task;
        shown = shown;
        coherent = new_task-IsCoherent c node reviewer;
        identity = (refl, refl, refl, refl);
        assignee_is = refl;
        acceptance_is = refl;
        begins = (refl, refl, refl);
        node_is = refl;
        domain_is = refl;
        epoch_is = refl;
        live = not_there node.deleted_at_utc ((throw_if-ok_iff _ node_deleted).0 live);
        assigned =
            (IfGiven-iff
                (λ assignee.
                  not-false_iff (may_be_assigned d tables.directory at_utc c node assignee))
                c.assignee_principal_id).0
              ((throw_if-ok_iff _ assignee_not_eligible).0 able);
        reviewed = resolved reviewer is_reviewer;
        unreviewed = needless reviewer is_reviewer;
        waits = λ needed. rw needed refl;
        waits_not = λ unneeded. rw unneeded refl;
      }
