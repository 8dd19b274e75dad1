-- ===== src/Tasks/Progress.antt =====
-- No task of packages/domain/src/tasks.ts gets stuck before a final stage.
use project_process_map.Base.{◌≡◌, refl, ◌≢◌, inl, inr, arith, Bool-cases}
use project_process_map.Base.Results.{ok, is_ok_of}
use project_process_map.Tasks.{
  TaskLifecycleState, ProductTask, task_lifecycle, start_task, submit_task, accept_task,
  complete_task_without_review, operations,
}
use project_process_map.Tasks.Steps.{
  Step, Reach, here, next, start, submit, accept, complete, IsCoherent, Step-IsCoherent,
}
use project_process_map.Tasks.Lifecycle.{stage, stage_decides}

-- A completed task that is reached from `t`.
pub record CanComplete (t : ProductTask) : Type 0 where
  pub final : ProductTask
  pub reached : Reach t final
  pub completed : stage final ≡ TaskLifecycleState.completed

prepend : {t u v : ProductTask} → Step t u → Reach u v → Reach t v
prepend s here = next here s
prepend s (next r s') = next (prepend s r) s'

after : {t u : ProductTask} → Step t u → CanComplete u → CanComplete t
after s d = record { final = d.final; reached = prepend s d.reached; completed = d.completed }

done : (t : ProductTask) → stage t ≡ TaskLifecycleState.completed → CanComplete t
done t h = record { final = t; reached = here; completed = h }

stage-accept : (t u : ProductTask) → accept_task t ≡ ok u → stage u ≡ TaskLifecycleState.completed
unfolding operations task_lifecycle
stage-accept t u e = ground arith

stage_complete :
    (t u : ProductTask)
    → complete_task_without_review t ≡ ok u
    → stage u ≡ TaskLifecycleState.completed
unfolding operations task_lifecycle
stage_complete t u e = ground arith

stage-submit :
    (t u : ProductTask) → submit_task t ≡ ok u → stage u ≡ TaskLifecycleState.pending_review
unfolding operations task_lifecycle
stage-submit t u e = ground arith

stage-start :
    {t u : ProductTask}
    → start_task t ≡ ok u
    → IsCoherent t
    → stage u ≡ TaskLifecycleState.in_progress
unfolding operations task_lifecycle
stage-start e c = ground arith

from_review :
    (t : ProductTask) → IsCoherent t → stage t ≡ TaskLifecycleState.pending_review → CanComplete t
from_review t c h =
    let (u, e) = is_ok_of (accept_task t) ((stage_decides t c).accepts.1 h) in
    after (accept e) (done u (stage-accept t u e))

from_work :
    (t : ProductTask) → IsCoherent t → stage t ≡ TaskLifecycleState.in_progress → CanComplete t
from_work t c h = elim (Bool-cases t.requires_acceptance) [
  | inl needs ↦
      let (u, e) = is_ok_of (submit_task t) ((stage_decides t c).submits.1 (h, needs)) in
      after (submit e) (from_review u (Step-IsCoherent (submit e) c) (stage-submit t u e))
  | inr none_needed ↦
      let (u, e) =
        is_ok_of (complete_task_without_review t)
          ((stage_decides t c).completes.1 (h, none_needed)) in
      after (complete e) (done u (stage_complete t u e))
]

from_todo : (t : ProductTask) → IsCoherent t → stage t ≡ TaskLifecycleState.todo → CanComplete t
from_todo t c h =
    let (u, e) = is_ok_of (start_task t) ((stage_decides t c).starts.1 h) in
    after (start e) (from_work u (Step-IsCoherent (start e) c) (stage-start e c))

by_stage :
    (t : ProductTask) (l : TaskLifecycleState)
    → stage t ≡ l
    → IsCoherent t
    → l ≢ TaskLifecycleState.canceled
    → l ≢ TaskLifecycleState.promoted
    → CanComplete t
by_stage t TaskLifecycleState.todo h c p q = from_todo t c h
by_stage t TaskLifecycleState.in_progress h c p q = from_work t c h
by_stage t TaskLifecycleState.pending_review h c p q = from_review t c h
by_stage t TaskLifecycleState.completed h c p q = done t h
by_stage t TaskLifecycleState.canceled h c p q = absurd (p refl)
by_stage t TaskLifecycleState.promoted h c p q = absurd (q refl)

-- From every coherent task whose stage is neither canceled nor promoted, some sequence of operations leads to completion.
pub can_complete :
    (t : ProductTask)
    → IsCoherent t
    → stage t ≢ TaskLifecycleState.canceled
    → stage t ≢ TaskLifecycleState.promoted
    → CanComplete t
can_complete t c p q = by_stage t (stage t) refl c p q
