-- ===== src/Tasks/Lifecycle.antt =====
-- Which operation of packages/domain/src/tasks.ts is open in which stage of a task's life.
use project_process_map.Base.{◌≡◌, ◌↔◌, ◌⊎◌, ◌≢◌, true, false, inl, inr, arith}
use project_process_map.Base.Results.{Result, ok, is_ok}
use project_process_map.Tasks.{
  TaskLifecycleState, TaskExecutionState, accepted, ProductTask, TaskError, task_lifecycle,
  start_task, submit_task, accept_task, reject_task, withdraw_task, cancel_task, promote_task,
  complete_task_without_review, operations,
}
use project_process_map.Tasks.Steps.{
  Step, Reach, here, next, start, submit, accept, reject, withdraw, complete, assign_reviewer,
  assign_assignee, cancel, promote, IsCoherent, Reach-IsCoherent, Reach-Keeps,
}

-- The stage that the source derives from the two state fields.
abbrev pub stage : ProductTask → TaskLifecycleState
stage t = task_lifecycle t.execution_state t.review_state

-- An operation succeeds on `t`.
abbrev pub Succeeds : (ProductTask → Result TaskError ProductTask) → ProductTask → Type 0
Succeeds f t = is_ok (f t) ≡ true

-- The stage decides which operations succeed.
pub record IsStaged (t : ProductTask) : Type 0 where
  pub starts : Succeeds start_task t ↔ (stage t ≡ TaskLifecycleState.todo)
  pub accepts : Succeeds accept_task t ↔ (stage t ≡ TaskLifecycleState.pending_review)
  pub rejects : Succeeds reject_task t ↔ (stage t ≡ TaskLifecycleState.pending_review)
  pub withdraws : Succeeds withdraw_task t ↔ (stage t ≡ TaskLifecycleState.pending_review)
  pub submits :
      Succeeds submit_task t
      ↔ ((stage t ≡ TaskLifecycleState.in_progress) × (t.requires_acceptance ≡ true))
  pub completes :
      Succeeds complete_task_without_review t
      ↔ ((stage t ≡ TaskLifecycleState.in_progress) × (t.requires_acceptance ≡ false))
  pub cancels :
      Succeeds cancel_task t
      ↔ ((stage t ≡ TaskLifecycleState.todo) ⊎ (stage t ≡ TaskLifecycleState.in_progress))
  pub promotes : Succeeds promote_task t ↔ (stage t ≡ TaskLifecycleState.completed)

module _ (t : ProductTask) (c : IsCoherent t) where
  starts_iff : Succeeds start_task t ↔ (stage t ≡ TaskLifecycleState.todo)
  unfolding operations task_lifecycle
  starts_iff = (λ h. ground arith, λ h. ground arith)

  accepts_iff : Succeeds accept_task t ↔ (stage t ≡ TaskLifecycleState.pending_review)
  unfolding operations task_lifecycle
  accepts_iff = (λ h. ground arith, λ h. ground arith)

  rejects_iff : Succeeds reject_task t ↔ (stage t ≡ TaskLifecycleState.pending_review)
  unfolding operations task_lifecycle
  rejects_iff = (λ h. ground arith, λ h. ground arith)

  withdraws_iff : Succeeds withdraw_task t ↔ (stage t ≡ TaskLifecycleState.pending_review)
  unfolding operations task_lifecycle
  withdraws_iff = (λ h. ground arith, λ h. ground arith)

  submits_iff :
      Succeeds submit_task t
      ↔ ((stage t ≡ TaskLifecycleState.in_progress) × (t.requires_acceptance ≡ true))
  unfolding operations task_lifecycle
  submits_iff = (λ h. ground arith, λ h. ground arith)

  completes_iff :
      Succeeds complete_task_without_review t
      ↔ ((stage t ≡ TaskLifecycleState.in_progress) × (t.requires_acceptance ≡ false))
  unfolding operations task_lifecycle
  completes_iff = (λ h. ground arith, λ h. ground arith)

  cancels_iff :
      Succeeds cancel_task t
      ↔ ((stage t ≡ TaskLifecycleState.todo) ⊎ (stage t ≡ TaskLifecycleState.in_progress))
  unfolding operations task_lifecycle
  cancels_iff = (λ h. ground arith, λ h. ground arith)

  promotes_iff : Succeeds promote_task t ↔ (stage t ≡ TaskLifecycleState.completed)
  unfolding operations task_lifecycle
  promotes_iff = (λ h. ground arith, λ h. ground arith)

-- In a coherent task the stage that is shown, with the need of an acceptance, decides exactly which of the eight operations that change a state succeed (all but the two assignments).
pub stage_decides : (t : ProductTask) → IsCoherent t → IsStaged t
stage_decides t c = record {
  starts = starts_iff t c;
  accepts = accepts_iff t c;
  rejects = rejects_iff t c;
  withdraws = withdraws_iff t c;
  submits = submits_iff t c;
  completes = completes_iff t c;
  cancels = cancels_iff t c;
  promotes = promotes_iff t c;
}

Step-accepted :
    {t u : ProductTask}
    → Step t u
    → u.review_state ≡ accepted
    → (t.review_state ≡ accepted) ⊎ (accept_task t ≡ ok u)
unfolding operations
Step-accepted (accept e) h = inr e
Step-accepted (start e) h = ground arith
Step-accepted (submit e) h = ground arith
Step-accepted (reject e) h = ground arith
Step-accepted (withdraw e) h = ground arith
Step-accepted (complete e) h = ground arith
Step-accepted (assign_reviewer p e) h = ground arith
Step-accepted (assign_assignee p e) h = ground arith
Step-accepted (cancel e) h = ground arith
Step-accepted (promote e) h = ground arith

-- An acceptance on the way from `t` to `u`.
pub record HasAcceptance (t u : ProductTask) : Type 0 where
  pub before : ProductTask
  pub after : ProductTask
  pub led : Reach t before
  pub accepting : accept_task before ≡ ok after
  pub onward : Reach after u

accepted_by :
    {t u : ProductTask}
    → (t.review_state ≢ accepted)
    → Reach t u
    → u.review_state ≡ accepted
    → HasAcceptance t u
accepted_by fresh here h = absurd (fresh h)
accepted_by {u} fresh (next {u = v} r s) h = elim (Step-accepted s h) [
  | inl old ↦
      let a = accepted_by fresh r old in
      record {
        before = a.before;
        after = a.after;
        led = a.led;
        accepting = a.accepting;
        onward = next a.onward s;
      }
  | inr e ↦ record { before = v; after = u; led = r; accepting = e; onward = here }
]

-- If operations bring a coherent task that needs acceptance and is not accepted yet to completed or promoted, an acceptance is one of them.
pub completion_needs_acceptance :
    {t u : ProductTask}
    → IsCoherent t
    → t.requires_acceptance ≡ true
    → t.review_state ≢ accepted
    → Reach t u
    → (u.execution_state ≡ TaskExecutionState.completed)
      ⊎ (u.execution_state ≡ TaskExecutionState.promoted)
    → HasAcceptance t u
completion_needs_acceptance c needs fresh r done =
    let d = Reach-IsCoherent c r in let k = (Reach-Keeps r).0 in accepted_by fresh r (ground arith)

-- No operation succeeds on a coherent task whose stage is canceled or promoted, and one that succeeds on a completed task promotes it.
final_stages :
    {t u : ProductTask}
    → Step t u
    → IsCoherent t
    → (stage t ≢ TaskLifecycleState.canceled)
      × (stage t ≢ TaskLifecycleState.promoted)
      × (stage t ≡ TaskLifecycleState.completed → stage u ≡ TaskLifecycleState.promoted)
unfolding operations task_lifecycle
final_stages (start e) c = ground arith
final_stages (submit e) c = ground arith
final_stages (accept e) c = ground arith
final_stages (reject e) c = ground arith
final_stages (withdraw e) c = ground arith
final_stages (complete e) c = ground arith
final_stages (assign_reviewer p e) c = ground arith
final_stages (assign_assignee p e) c = ground arith
final_stages (cancel e) c = ground arith
final_stages (promote e) c = ground arith
