-- ===== src/Deliverables/Progress.antt =====
-- How often the operations of packages/domain/src/deliverables.ts succeed on a requirement.
use project_process_map.Base.{ℕ, ◌+◌, ◌≤◌, ◌<◌, arith}
use project_process_map.Base.Dates.{DateApi}
use project_process_map.Deliverables.{
  DeliverableStatus, pending, submitted, accepted, waived, evidence_due, unknown,
  DeliverableRequirement, submit_deliverable, accept_deliverable, waive_deliverable,
}
use project_process_map.Deliverables.Steps.{Step, submit, accept, waive, Reach, here, next}

-- How far a status is from the start.
abbrev pub progress : DeliverableStatus → ℕ
progress pending = 0
progress evidence_due = 0
progress submitted = 1
progress accepted = 2
progress waived = 2
progress (unknown s) = 0

pub operations : {d : DateApi} {r u : DeliverableRequirement} → Reach d r u → ℕ
operations here = 0
operations (next reached s) = operations reached + 1

Step-progress :
    {d : DateApi} {r u : DeliverableRequirement}
    → Step d r u
    → (progress r.status < progress u.status) × (progress u.status ≤ 2)
unfolding submit_deliverable accept_deliverable waive_deliverable
Step-progress (submit at_utc t e) = ground arith
Step-progress (accept o by t e) = ground arith
Step-progress (waive o by t e) = ground arith

progress-le : (s : DeliverableStatus) → progress s ≤ 2
progress-le s = ground arith

-- At most two operations succeed on a requirement, and its status moves forward by at least as many stages as operations succeed (the stages: pending or evidence due, submitted, accepted or waived).
at_most_two :
    {d : DateApi} {r u : DeliverableRequirement} (reached : Reach d r u)
    → (operations reached + progress r.status ≤ progress u.status) × (operations reached ≤ 2)
unfolding operations
at_most_two here = (omega arith, omega arith)
at_most_two {u} (next reached s) =
    let (far, _) = at_most_two reached in
    let (onward, most) = Step-progress s in (omega arith, omega arith)
