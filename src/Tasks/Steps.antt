-- ===== src/Tasks/Steps.antt =====
-- The life of a task (packages/domain/src/tasks.ts) as a step relation, and its invariants.
use project_process_map.Base.{ℕ, ◌+◌, ◌≡◌, ◌⊎◌, true, false, arith}
use project_process_map.Base.Results.{ok}
use project_process_map.Base.Text.{Text}
use project_process_map.Tasks.{
  TaskExecutionState, not_required, not_submitted, pending, accepted, ProductTask, start_task,
  submit_task, accept_task, reject_task, withdraw_task, complete_task_without_review,
  assign_task_reviewer, assign_task_assignee, cancel_task, promote_task, operations,
}

-- One successful operation.
pub data Step (t : ProductTask) : ProductTask → Type 0 where
  start : {u : ProductTask} → start_task t ≡ ok u → Step t u
  submit : {u : ProductTask} → submit_task t ≡ ok u → Step t u
  accept : {u : ProductTask} → accept_task t ≡ ok u → Step t u
  reject : {u : ProductTask} → reject_task t ≡ ok u → Step t u
  withdraw : {u : ProductTask} → withdraw_task t ≡ ok u → Step t u
  complete : {u : ProductTask} → complete_task_without_review t ≡ ok u → Step t u
  assign_reviewer : {u : ProductTask} (p : Text) → assign_task_reviewer t p ≡ ok u → Step t u
  assign_assignee : {u : ProductTask} (p : Text) → assign_task_assignee t p ≡ ok u → Step t u
  cancel : {u : ProductTask} → cancel_task t ≡ ok u → Step t u
  promote : {u : ProductTask} → promote_task t ≡ ok u → Step t u

pub data Reach (t : ProductTask) : ProductTask → Type 0 where
  here : Reach t t
  next : {u v : ProductTask} → Reach t u → Step u v → Reach t v

-- What the two state fields of a task allow together.
pub record IsCoherent (t : ProductTask) : Type 0 where
  pub unreviewed : t.requires_acceptance ≡ false → t.review_state ≡ not_required
  pub reviewed : t.requires_acceptance ≡ true → t.review_state ≡ not_required → ⊥
  pub in_review : t.review_state ≡ pending → t.execution_state ≡ TaskExecutionState.in_progress
  pub finished :
      t.execution_state ≡ TaskExecutionState.completed
      → t.requires_acceptance ≡ true
      → t.review_state ≡ accepted
  pub lifted :
      t.execution_state ≡ TaskExecutionState.promoted
      → t.requires_acceptance ≡ true
      → t.review_state ≡ accepted
  pub signed_off :
      t.review_state ≡ accepted
      → (t.execution_state ≡ TaskExecutionState.completed)
        ⊎ (t.execution_state ≡ TaskExecutionState.promoted)
  pub untouched :
      t.execution_state ≡ TaskExecutionState.todo
      → (t.review_state ≡ not_required) ⊎ (t.review_state ≡ not_submitted)

pub Step-IsCoherent : {t u : ProductTask} → Step t u → IsCoherent t → IsCoherent u
unfolding operations
Step-IsCoherent {t} (start e) c = ground arith
Step-IsCoherent {t} (submit e) c = ground arith
Step-IsCoherent {t} (accept e) c = ground arith
Step-IsCoherent {t} (reject e) c = ground arith
Step-IsCoherent {t} (withdraw e) c = ground arith
Step-IsCoherent {t} (complete e) c = ground arith
Step-IsCoherent {t} (assign_reviewer p e) c = ground arith
Step-IsCoherent {t} (assign_assignee p e) c = ground arith
Step-IsCoherent {t} (cancel e) c = ground arith
Step-IsCoherent {t} (promote e) c = ground arith

-- An operation changes neither what identifies the task nor its security ownership, and each
-- raises the version by one.
pub record Keeps (t u : ProductTask) : Type 0 where
  pub tenant : u.tenant_id ≡ t.tenant_id
  pub id : u.id ≡ t.id
  pub project : u.project_id ≡ t.project_id
  pub owner_node : u.owner_node_id ≡ t.owner_node_id
  pub domain : u.security_domain_id ≡ t.security_domain_id
  pub epoch : u.security_epoch ≡ t.security_epoch
  pub title : u.title ≡ t.title
  pub acceptance : u.requires_acceptance ≡ t.requires_acceptance
  pub deletion : u.deleted_at_utc ≡ t.deleted_at_utc

pub Step-Keeps : {t u : ProductTask} → Step t u → Keeps t u
unfolding operations
Step-Keeps (start e) = ground arith
Step-Keeps (submit e) = ground arith
Step-Keeps (accept e) = ground arith
Step-Keeps (reject e) = ground arith
Step-Keeps (withdraw e) = ground arith
Step-Keeps (complete e) = ground arith
Step-Keeps (assign_reviewer p e) = ground arith
Step-Keeps (assign_assignee p e) = ground arith
Step-Keeps (cancel e) = ground arith
Step-Keeps (promote e) = ground arith

pub Step-version : {t u : ProductTask} → Step t u → u.version ≡ t.version + 1
unfolding operations
Step-version (start e) = ground arith
Step-version (submit e) = ground arith
Step-version (accept e) = ground arith
Step-version (reject e) = ground arith
Step-version (withdraw e) = ground arith
Step-version (complete e) = ground arith
Step-version (assign_reviewer p e) = ground arith
Step-version (assign_assignee p e) = ground arith
Step-version (cancel e) = ground arith
Step-version (promote e) = ground arith

pub Keeps-trans : {t u v : ProductTask} → Keeps t u → Keeps u v → Keeps t v
Keeps-trans a b = ground arith

pub Keeps-refl : (t : ProductTask) → Keeps t t
Keeps-refl t = ground arith

-- The number of operations on a path.
pub steps : {t u : ProductTask} → Reach t u → ℕ
steps here = 0
steps (next r s) = steps r + 1

-- Operations lead from a coherent task to coherent tasks only: the need of an acceptance, the review state and the execution state go together.
pub Reach-IsCoherent : {t u : ProductTask} → IsCoherent t → Reach t u → IsCoherent u
Reach-IsCoherent c here = c
Reach-IsCoherent c (next r s) = Step-IsCoherent s (Reach-IsCoherent c r)

-- Over any sequence of successful operations the task keeps its identity, its security ownership
-- and whether it needs acceptance, and its version counts the operations.
pub Reach-Keeps :
    {t u : ProductTask} (r : Reach t u) → Keeps t u × (u.version ≡ t.version + steps r)
unfolding steps
Reach-Keeps {t} here = (Keeps-refl t, omega arith)
Reach-Keeps (next r s) =
    let (keeps, count) = Reach-Keeps r in
    (Keeps-trans keeps (Step-Keeps s), omega (arith, Step-version s))
