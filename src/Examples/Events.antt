-- ===== src/Examples/Events.antt =====
-- The event of a deliverable that was waived, against its schema.
use project_process_map.Base.{◌≡◌, ◌↔◌, none}
use project_process_map.Base.Results.{ok}
use project_process_map.Base.Text.{text}
use project_process_map.Events.{string, field, no_fields, DomainEvent, event_value}
use project_process_map.Events.Registry.{get_event_schema, validate_event_against_schema}
use project_process_map.Events.Conformance.{IsClean, Fits, validate_event_iff}
use project_process_map.Examples.Clock.{noon}

abbrev waived : DomainEvent
waived = record {
  tenant_id = text "t";
  event_id = text "evt:c";
  project_id = text "p";
  project_sequence = 4;
  aggregate_type = text "deliverable";
  aggregate_id = text "d";
  aggregate_version = 2;
  event_type = text "project-map.deliverable.waived";
  schema_version = 1;
  actor_principal_id = text "ann";
  occurred_at_utc = noon;
  correlation_id = text "r";
  causation_id = text "c";
  original_security_domain_id = none;
  original_security_epoch = 1;
  payload = field (text "deliverableId") (string (text "d")) (
      field (text "projectId") (string (text "p")) (
        field (text "nodeId") (string (text "n")) (
          field (text "waivedByPrincipalId") (string (text "ann"))
            (field (text "waivedReason") (string (text "late")) no_fields))));
}

validate_event_iff_example : (validate_event_against_schema waived ≡ ok tt) ↔ (
    IsClean (event_value waived)
    × Fits (get_event_schema (text "project-map.deliverable.waived") 1) waived)
validate_event_iff_example = validate_event_iff waived
