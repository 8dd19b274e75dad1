-- ===== src/Events.antt =====
-- packages/domain/src/events.ts: domain events, with the values that a payload can hold, and the
-- messages of the outbox. A number in a payload is a natural number; no rule looks at it.
pub mod Schemas
pub mod Registry
pub mod Conformance
use project_process_map.Base.{
  ℕ, zero, suc, ◌+◌, Bool, true, false, Option, none, some, List, [], ◌∷◌, ◌++◌, ltb, if◌then◌else◌,
}
use Prim.Native.Nat.{◌/◌, ◌%◌}
use project_process_map.Base.Text.{Text, text}

mutual
  pub data Json : Type 0 where
    undefined null : Json
    boolean : Bool → Json
    number : ℕ → Json
    string : Text → Json
    array : Items → Json
    object : Fields → Json

  pub data Items : Type 0 where
    no_items : Items
    item : Json → Items → Items

  pub data Fields : Type 0 where
    no_fields : Fields
    field : Text → Json → Fields → Fields

pub record DomainEvent : Type 0 where
  pub tenant_id : Text
  pub event_id : Text
  pub project_id : Text
  pub project_sequence : ℕ
  pub aggregate_type : Text
  pub aggregate_id : Text
  pub aggregate_version : ℕ
  pub event_type : Text
  pub schema_version : ℕ
  pub actor_principal_id : Text
  pub occurred_at_utc : Text
  pub correlation_id : Text
  pub causation_id : Text
  pub original_security_domain_id : Option Text
  pub original_security_epoch : ℕ
  pub payload : Fields

abbrev pub string_or_null : Option Text → Json
string_or_null none = null
string_or_null (some s) = string s

-- The event as the value that it is to code that takes any value.
abbrev pub event_value : DomainEvent → Json
event_value e = object (
    field (text "tenantId") (string e.tenant_id) (
      field (text "eventId") (string e.event_id) (
        field (text "projectId") (string e.project_id) (
          field (text "projectSequence") (number e.project_sequence) (
            field (text "aggregateType") (string e.aggregate_type) (
              field (text "aggregateId") (string e.aggregate_id) (
                field (text "aggregateVersion") (number e.aggregate_version) (
                  field (text "eventType") (string e.event_type) (
                    field (text "schemaVersion") (number e.schema_version) (
                      field (text "actorPrincipalId") (string e.actor_principal_id) (
                        field (text "occurredAtUtc") (string e.occurred_at_utc) (
                          field (text "correlationId") (string e.correlation_id) (
                            field (text "causationId") (string e.causation_id) (
                              field (text "originalSecurityDomainId")
                                (string_or_null e.original_security_domain_id)
                                (field (text "originalSecurityEpoch")
                                  (number e.original_security_epoch)
                                  (field (text "payload") (object e.payload)
                                    no_fields))))))))))))))))

-- The digits of a number in a template string; `fuel` is at least the number of digits less one.
unfoldable pub digits : (fuel : ℕ) → ℕ → Text
digits zero n = (n % 10 + 48) ∷ []
digits (suc fuel) n =
    let rest = digits fuel (n / 10) in
    if ltb n 10 then (n + 48) ∷ [] else rest ++ (n % 10 + 48) ∷ []

abbrev pub decimal : ℕ → Text
decimal n = digits n n

unfoldable pub event_topic : DomainEvent → Text
event_topic e = e.event_type ++ text ".v" ++ decimal e.schema_version

pub data OutboxState : Type 0 where
  pending leased published dead_letter : OutboxState

pub data JobState : Type 0 where
  pending leased completed dead_letter : JobState

pub record OutboxMessage : Type 0 where
  pub tenant_id : Text
  pub id : Text
  pub event_id : Text
  pub topic : Text
  pub payload : DomainEvent
  pub state : OutboxState
  pub available_at_utc : Text
  pub attempts : ℕ
  pub max_attempts : ℕ
  pub lease_owner : Option Text
  pub lease_token : Option Text
  pub lease_expires_at_utc : Option Text
  pub last_error : Option Text
  pub published_at_utc : Option Text
  pub created_at_utc : Text

pub record BackgroundJob : Type 0 where
  pub tenant_id : Text
  pub id : Text
  pub job_type : Text
  pub dedupe_key : Option Text
  pub payload : Fields
  pub state : JobState
  pub priority : ℕ
  pub available_at_utc : Text
  pub attempts : ℕ
  pub max_attempts : ℕ
  pub lease_owner : Option Text
  pub lease_token : Option Text
  pub lease_expires_at_utc : Option Text
  pub last_error : Option Text
  pub completed_at_utc : Option Text
  pub created_at_utc : Text
