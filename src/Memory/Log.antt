-- ===== src/Memory/Log.antt =====
-- What a write to the state of packages/adapters/src/memory/persistence.ts leaves behind.
use project_process_map.Base.{
  ℕ, ◌+◌, ◌≡◌, refl, ap, false, Option, none, some, [], ◌∷◌, ◌++◌, arith, any,
}
use project_process_map.Base.Equality.{list_eq, nat_eq}
use project_process_map.Base.Results.{Result, ok, err, ◌>>◌, or_throw}
use project_process_map.Base.Tables.{get, put}
use project_process_map.Base.Text.{Text}
use project_process_map.Events.{DomainEvent, OutboxMessage, BackgroundJob}
use project_process_map.Tasks.{ProductTask}
use project_process_map.Memory.{
  MemoryState, key_of, receipt_key, event_key, aggregate_key, sequence_key, CommandReceipt,
  receipts_insert, events_append, outbox_enqueue, jobs_schedule, through, is_about,
}
use project_process_map.Memory.Tasks.{save_preserving_security_ownership, tasks_get, tasks_insert}

-- What follows a check that passed.
pub after_check :
    {E A : Type 0} (m : Result E (Unit {0})) (n : Result E A) {a : A}
    → (m >> n) ≡ ok a
    → (m ≡ ok tt) × (n ≡ ok a)
after_check (ok tt) n h = (refl, h)
after_check (err e) n h = cc

pub ok-injective : {E A : Type 0} {a b : A} → ◌≡◌ {A = Result E A} (ok a) (ok b) → a ≡ b
ok-injective h = cc

pub or_throw-some : {E A : Type 0} (o : Option A) (e : E) {a : A} → or_throw o e ≡ ok a → o ≡ some a
or_throw-some none e h = cc
or_throw-some (some b) e h = ap some (ok-injective h)

pub through-ok :
    {E F A : Type 0} (name : E → F) (r : Result E A) {a : A} → through name r ≡ ok a → r ≡ ok a
through-ok name (ok b) h = ap ok (ok-injective h)
through-ok name (err e) h = cc

pub receipts_insert-ok :
    (tenant_id : Text) (s t : MemoryState) (r : CommandReceipt)
    → receipts_insert tenant_id s r ≡ ok t
    → (get s.receipts (receipt_key tenant_id r.scope) ≡ none)
      × (t ≡ record s { receipts = put s.receipts (receipt_key tenant_id r.scope) r })
unfolding receipts_insert
receipts_insert-ok tenant_id s t r h = ground arith

pub events_append-ok :
    (tenant_id : Text) (s t : MemoryState) (e : DomainEvent)
    → events_append tenant_id s e ≡ ok t
    → (get s.events (event_key tenant_id e) ≡ none)
      × (t ≡ record s {
        events = put s.events (event_key tenant_id e) e;
        aggregate_versions = s.aggregate_versions ++ aggregate_key tenant_id e ∷ [];
        project_event_sequences = s.project_event_sequences ++ sequence_key tenant_id e ∷ [];
      })
unfolding events_append
events_append-ok tenant_id s t e h = ground arith

pub outbox_enqueue-ok :
    (tenant_id : Text) (s t : MemoryState) (m : OutboxMessage)
    → outbox_enqueue tenant_id s m ≡ ok t
    → (any (is_about tenant_id m.event_id) s.outbox ≡ false)
      × (t ≡ record s { outbox = put s.outbox (key_of tenant_id m.id) m })
unfolding outbox_enqueue
outbox_enqueue-ok tenant_id s t m h = ground arith

pub save-ok :
    (tenant_id : Text) (s t : MemoryState) (task_id : Text) (task : ProductTask) (version : ℕ)
    → save_preserving_security_ownership tenant_id s task_id task version ≡ ok t
    → (existing : ProductTask) × (tasks_get tenant_id s task_id ≡ some existing)
      × (existing.version ≡ version)
      × (task.version ≡ version + 1)
      × (t ≡ record s { tasks = put s.tasks (key_of tenant_id task_id) task })
unfolding save_preserving_security_ownership
save-ok tenant_id s t task_id task version h = ground arith

pub tasks_insert-ok :
    (tenant_id : Text) (s t : MemoryState) (task : ProductTask)
    → tasks_insert tenant_id s task ≡ ok t
    → (get s.tasks (key_of tenant_id task.id) ≡ none)
      × (t ≡ record s { tasks = put s.tasks (key_of tenant_id task.id) task })
unfolding tasks_insert
tasks_insert-ok tenant_id s t task h = ground arith

pub jobs_schedule-tasks :
    (tenant_id : Text) (s t : MemoryState) (job : BackgroundJob)
    → jobs_schedule tenant_id s job ≡ ok t
    → t.tasks ≡ s.tasks
unfolding jobs_schedule
jobs_schedule-tasks tenant_id s t job h = ground arith
