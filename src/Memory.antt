-- ===== src/Memory.antt =====
-- packages/adapters/src/memory/persistence.ts: the part of the state that the commands on tasks
-- read and write, `transaction`, and the repositories of receipts, sequences, events, the outbox
-- and the jobs. The tables hold the rows of all tenants. A thrown error is named by its code.
pub mod Tasks
pub mod Log
use project_process_map.Base.{
  ℕ, ◌+◌, Bool, true, false, not, Option, none, some, List, [], ◌∷◌, ◌++◌, any, ◌==◌, ◌!=◌, ◌&&◌,
  ◌||◌, if◌then◌else◌,
}
use project_process_map.Base.Equality.{list_eq, nat_eq}
use project_process_map.Base.Results.{Result, ok, err, ◌>>=◌, ◌>>◌, throw_if}
use project_process_map.Base.Dates.{is_some}
use project_process_map.Base.Sets.{contains}
use project_process_map.Base.Tables.{get, put}
use project_process_map.Base.Text.{Text}
use project_process_map.Events.{DomainEvent, event_value, OutboxMessage, BackgroundJob, decimal}
use project_process_map.Events.Registry.{
  EventFault, assert_no_sensitive_fields, validate_event_against_schema,
}
use project_process_map.Store.{Directory}
use project_process_map.Tasks.{ProductTask}
use project_process_map.TaskCommands.{TaskReviewActionRecord}
use project_process_map.TaskCommands.View.{TaskView}

pub record CommandScope : Type 0 where
  pub principal_id : Text
  pub operation : Text
  pub idempotency_key : Text

-- The receipt of a command on a task.
pub record CommandReceipt : Type 0 where
  pub scope : CommandScope
  pub fingerprint : Text
  pub result : TaskView
  pub created_at_utc : Text

pub record MemoryState : Type 0 where
  pub directory : (tenant_id : Text) → Directory
  pub tasks : List (Text × ProductTask)
  pub review_actions : List (Text × TaskReviewActionRecord)
  pub receipts : List (Text × CommandReceipt)
  pub sequences : List (Text × ℕ)
  pub events : List (Text × DomainEvent)
  pub aggregate_versions : List Text
  pub project_event_sequences : List Text
  pub outbox : List (Text × OutboxMessage)
  pub jobs : List (Text × BackgroundJob)
  pub job_dedupe : List (Text × Text)

pub data StoreError : Type 0 where
  tenant_context_mismatch task_already_exists task_not_found task_version_conflict : StoreError
  task_security_ownership_immutable task_review_action_already_exists : StoreError
  idempotency_record_already_exists event_already_exists : StoreError
  aggregate_version_already_exists project_sequence_already_exists : StoreError
  outbox_event_already_exists job_already_exists job_dedupe_key_already_exists : StoreError
  event_fault : EventFault → StoreError

-- `transaction`: the work is done on a draft, which replaces the state if nothing is thrown.
unfoldable pub transaction :
    {E A : Type 0}
    → MemoryState
    → (MemoryState → Result E (A × MemoryState))
    → Result E A × MemoryState
transaction s work = elim (work s) [ err e ↦ (err e, s) | ok done ↦ (ok done.0, done.1) ]

-- An error of another part, thrown through.
abbrev pub through : {E F A : Type 0} → (E → F) → Result E A → Result F A
through name (err e) = err (name e)
through name (ok a) = ok a

-- Keys are parts with a unit 0 between them.
abbrev pub key_of : Text → Text → Text
key_of front back = front ++ 0 ∷ back

unfoldable pub assert_tenant : (expected actual : Text) → Result StoreError (Unit {0})
assert_tenant expected actual = throw_if (actual != expected) tenant_context_mismatch

abbrev pub receipt_key : Text → CommandScope → Text
receipt_key tenant_id scope =
    key_of tenant_id (key_of scope.principal_id (key_of scope.operation scope.idempotency_key))

unfoldable pub receipts_get : Text → MemoryState → CommandScope → Option CommandReceipt
receipts_get tenant_id s scope = get s.receipts (receipt_key tenant_id scope)

unfoldable pub receipts_insert : Text → MemoryState → CommandReceipt → Result StoreError MemoryState
receipts_insert tenant_id s receipt = do
  throw_if (is_some (get s.receipts (receipt_key tenant_id receipt.scope)))
      idempotency_record_already_exists
  ok (record s { receipts = put s.receipts (receipt_key tenant_id receipt.scope) receipt })

-- `?? 0`
abbrev pub or_zero : Option ℕ → ℕ
or_zero none = 0
or_zero (some n) = n

unfoldable pub sequences_current : Text → MemoryState → (project_id : Text) → ℕ
sequences_current tenant_id s project_id = or_zero (get s.sequences (key_of tenant_id project_id))

unfoldable pub sequences_next : Text → MemoryState → (project_id : Text) → ℕ × MemoryState
sequences_next tenant_id s project_id =
    let next = sequences_current tenant_id s project_id + 1 in
    (next, record s { sequences = put s.sequences (key_of tenant_id project_id) next })

abbrev pub event_key : Text → DomainEvent → Text
event_key tenant_id e = key_of tenant_id e.event_id

abbrev pub aggregate_key : Text → DomainEvent → Text
aggregate_key tenant_id e =
    key_of tenant_id (key_of e.aggregate_type (key_of e.aggregate_id (decimal e.aggregate_version)))

abbrev pub sequence_key : Text → DomainEvent → Text
sequence_key tenant_id e = key_of tenant_id (key_of e.project_id (decimal e.project_sequence))

unfoldable pub events_append : Text → MemoryState → DomainEvent → Result StoreError MemoryState
events_append tenant_id s e = do
  assert_tenant tenant_id e.tenant_id
  through event_fault (validate_event_against_schema e)
  throw_if (is_some (get s.events (event_key tenant_id e))) event_already_exists
  throw_if (contains s.aggregate_versions (aggregate_key tenant_id e))
      aggregate_version_already_exists
  throw_if (contains s.project_event_sequences (sequence_key tenant_id e))
      project_sequence_already_exists
  ok (record s {
    events = put s.events (event_key tenant_id e) e;
    aggregate_versions = s.aggregate_versions ++ aggregate_key tenant_id e ∷ [];
    project_event_sequences = s.project_event_sequences ++ sequence_key tenant_id e ∷ [];
  })

abbrev pub is_about : Text → (event_id : Text) → Text × OutboxMessage → Bool
is_about tenant_id event_id entry = entry.1.tenant_id == tenant_id && entry.1.event_id == event_id

-- The payload is an event, which is an object with a type and a version.
unfoldable pub outbox_enqueue : Text → MemoryState → OutboxMessage → Result StoreError MemoryState
outbox_enqueue tenant_id s m = do
  assert_tenant tenant_id m.tenant_id
  through event_fault (assert_no_sensitive_fields (event_value m.payload))
  through event_fault (validate_event_against_schema m.payload)
  throw_if
      (is_some (get s.outbox (key_of tenant_id m.id))
        || any (is_about tenant_id m.event_id) s.outbox)
      outbox_event_already_exists
  ok (record s { outbox = put s.outbox (key_of tenant_id m.id) m })

abbrev pub dedupe_key_of : Text → BackgroundJob → Option Text
dedupe_key_of tenant_id job = elim job.dedupe_key [
  | none ↦ none
  | some key ↦ some (key_of tenant_id (key_of job.job_type key))
]

abbrev pub is_taken : List (Text × Text) → Option Text → Bool
is_taken job_dedupe none = false
is_taken job_dedupe (some key) = is_some (get job_dedupe key)

abbrev pub with_dedupe : List (Text × Text) → Option Text → Text → List (Text × Text)
with_dedupe job_dedupe none key = job_dedupe
with_dedupe job_dedupe (some dedupe) key = put job_dedupe dedupe key

unfoldable pub jobs_schedule : Text → MemoryState → BackgroundJob → Result StoreError MemoryState
jobs_schedule tenant_id s job = do
  assert_tenant tenant_id job.tenant_id
  throw_if (is_some (get s.jobs (key_of tenant_id job.id))) job_already_exists
  throw_if (is_taken s.job_dedupe (dedupe_key_of tenant_id job)) job_dedupe_key_already_exists
  ok (record s {
    jobs = put s.jobs (key_of tenant_id job.id) job;
    job_dedupe = with_dedupe s.job_dedupe (dedupe_key_of tenant_id job) (key_of tenant_id job.id);
  })
