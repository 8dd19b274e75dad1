-- ===== src/Integrations/Runs.antt =====
-- Runs of packages/domain/src/integration-operations.ts: the states on the way and their errors.
use project_process_map.Base.{◌+◌, ◌≤◌, ◌≡◌, ◌≢◌, ◌⊎◌, Option, none, some, [], arith}
use project_process_map.Base.Results.{ok}
use project_process_map.Base.Text.{Text, trim}
use project_process_map.Integrations.{
  running, retryable, completed, compensated, recovery_required, IntegrationOperation, Change,
  advance_integration_operation,
}

pub data Run (o : IntegrationOperation) : IntegrationOperation → Type 0 where
  here : Run o o
  next :
      {p q : IntegrationOperation}
      → Run o p
      → (c : Change) → advance_integration_operation p c ≡ ok q
      → Run o q

abbrev pub IsFinal : IntegrationOperation → Type 0
IsFinal o = (o.state ≡ completed) ⊎ (o.state ≡ compensated)

-- Nothing advances a completed or compensated operation.
pub final_stays :
    (o p : IntegrationOperation) (c : Change) → IsFinal o → advance_integration_operation o c ≢ ok p
unfolding advance_integration_operation
final_stays o p c f e = ground arith

-- A last error that is not blank.
abbrev pub HasError : Option Text → Type 0
HasError none = ⊥
HasError (some e) = trim e ≢ []

abbrev pub IsExplained : IntegrationOperation → Type 0
IsExplained o = (o.state ≡ retryable) ⊎ (o.state ≡ recovery_required) → HasError o.last_error

advance-IsExplained :
    (o p : IntegrationOperation) (c : Change)
    → advance_integration_operation o c ≡ ok p
    → IsExplained p
unfolding advance_integration_operation
advance-IsExplained o p c e = ground arith

-- What an operation is about.
pub record Keeps (o p : IntegrationOperation) : Type 0 where
  pub tenant : p.tenant_id ≡ o.tenant_id
  pub id : p.id ≡ o.id
  pub kind : p.operation_type ≡ o.operation_type
  pub subject_kind : p.subject_type ≡ o.subject_type
  pub subject : p.subject_id ≡ o.subject_id
  pub fingerprint : p.fingerprint ≡ o.fingerprint
  pub request : p.external_request_id ≡ o.external_request_id
  pub deadline : p.deadline_at_utc ≡ o.deadline_at_utc
  pub created : p.created_at_utc ≡ o.created_at_utc

advance-Keeps :
    (o p : IntegrationOperation) (c : Change)
    → advance_integration_operation o c ≡ ok p
    → Keeps o p
      × (p.version ≡ o.version + 1)
      × (o.attempts ≤ p.attempts)
      × (p.attempts ≤ o.attempts + 1)
unfolding advance_integration_operation
advance-Keeps o p c e = ground arith

Keeps-refl : (o : IntegrationOperation) → Keeps o o
Keeps-refl o = ground arith

Keeps-trans : {o p q : IntegrationOperation} → Keeps o p → Keeps p q → Keeps o q
Keeps-trans a b = ground arith

-- If an operation that is retryable or needs recovery names a last error that is not blank, so does every operation that advances make of it.
Run-IsExplained : {o p : IntegrationOperation} → Run o p → IsExplained o → IsExplained p
Run-IsExplained here h = h
Run-IsExplained {p} (next {p = m} r c e) h = advance-IsExplained m p c e

-- Over a run of advances the operation keeps its identity, its subject, its fingerprint, its request id, its deadline and its creation time; version and attempts never go down, and the attempts grow by at most one for each version.
pub Run-Keeps :
    {o p : IntegrationOperation}
    → Run o p
    → Keeps o p
      × (o.version ≤ p.version)
      × (o.attempts ≤ p.attempts)
      × (p.attempts + o.version ≤ o.attempts + p.version)
Run-Keeps {o} here = (Keeps-refl o, omega arith, omega arith, omega arith)
Run-Keeps {p} (next {p = m} r c e) =
    let (k, v, a, b) = Run-Keeps r in
    let (k', v', a', b') = advance-Keeps m p c e in
    (Keeps-trans k k', omega arith, omega arith, omega arith)

-- An operation completes only while it runs.
pub completes_running :
    (o p : IntegrationOperation) (c : Change)
    → advance_integration_operation o c ≡ ok p
    → p.state ≡ completed
    → o.state ≡ running
unfolding advance_integration_operation
completes_running o p c e h = ground arith
