-- ===== src/Events/Schemas.antt =====
-- The schemas of payloads that packages/domain/src declares: those of project-structure.ts,
-- project-access.ts, role-slots.ts and deliverables.ts.
use project_process_map.Base.{ℕ, List, [], ◌∷◌}
use project_process_map.Base.Text.{Text, text}

pub record EventSchema : Type 0 where
  pub event_type : Text
  pub schema_version : ℕ
  pub required_payload_fields : List Text
  pub optional_payload_fields : List Text

abbrev pub node_created : EventSchema
node_created = record {
  event_type = text "project-map.node.created";
  schema_version = 1;
  required_payload_fields = text "nodeId" ∷ text "parentId" ∷ text "title" ∷ text "kind" ∷ [];
  optional_payload_fields = [];
}

abbrev pub node_leader_assigned : EventSchema
node_leader_assigned = record {
  event_type = text "project-map.node.leader_assigned";
  schema_version = 1;
  required_payload_fields =
      text "nodeId" ∷ text "previousLeaderPrincipalId" ∷ text "leaderPrincipalId" ∷ [];
  optional_payload_fields = [];
}

abbrev pub node_completed : EventSchema
node_completed = record {
  event_type = text "project-map.node.completed";
  schema_version = 1;
  required_payload_fields =
      text "nodeId" ∷ text "completedByPrincipalId" ∷ text "completedAtUtc" ∷ [];
  optional_payload_fields = [];
}

abbrev pub membership_demoted : EventSchema
membership_demoted = record {
  event_type = text "project-map.project-membership.demoted";
  schema_version = 1;
  required_payload_fields = text "action" ∷ [];
  optional_payload_fields = text "permissionVersion" ∷ [];
}

abbrev pub membership_revoked : EventSchema
membership_revoked = record {
  event_type = text "project-map.project-membership.revoked";
  schema_version = 1;
  required_payload_fields = text "action" ∷ [];
  optional_payload_fields = text "permissionVersion" ∷ [];
}

abbrev pub role_binding_assigned : EventSchema
role_binding_assigned = record {
  event_type = text "project-map.role-binding.assigned";
  schema_version = 1;
  required_payload_fields =
      text "projectId" ∷ text "slotKey" ∷ text "principalIds" ∷ text "version" ∷ [];
  optional_payload_fields = [];
}

abbrev pub role_slots_initialized : EventSchema
role_slots_initialized = record {
  event_type = text "project-map.role-slots.initialized";
  schema_version = 1;
  required_payload_fields =
      text "projectId" ∷ text "sourceTemplateVersionId" ∷ text "slotKeys" ∷ [];
  optional_payload_fields = [];
}

abbrev pub deliverable_initialized : EventSchema
deliverable_initialized = record {
  event_type = text "project-map.deliverable.initialized";
  schema_version = 1;
  required_payload_fields =
      text "deliverableId"
      ∷ text "projectId"
      ∷ text "nodeId"
      ∷ text "requirementKey"
      ∷ text "minCount"
      ∷ text "reviewerPrincipalId"
      ∷ text "required"
      ∷ [];
  optional_payload_fields = text "description" ∷ [];
}

abbrev pub deliverable_submitted : EventSchema
deliverable_submitted = record {
  event_type = text "project-map.deliverable.submitted";
  schema_version = 1;
  required_payload_fields =
      text "deliverableId"
      ∷ text "projectId"
      ∷ text "nodeId"
      ∷ text "evidenceCount"
      ∷ text "evidenceIds"
      ∷ [];
  optional_payload_fields = [];
}

abbrev pub deliverable_accepted : EventSchema
deliverable_accepted = record {
  event_type = text "project-map.deliverable.accepted";
  schema_version = 1;
  required_payload_fields =
      text "deliverableId" ∷ text "projectId" ∷ text "nodeId" ∷ text "acceptedByPrincipalId" ∷ [];
  optional_payload_fields = text "acceptedReason" ∷ [];
}

abbrev pub deliverable_waived : EventSchema
deliverable_waived = record {
  event_type = text "project-map.deliverable.waived";
  schema_version = 1;
  required_payload_fields =
      text "deliverableId"
      ∷ text "projectId"
      ∷ text "nodeId"
      ∷ text "waivedByPrincipalId"
      ∷ text "waivedReason"
      ∷ [];
  optional_payload_fields = [];
}
