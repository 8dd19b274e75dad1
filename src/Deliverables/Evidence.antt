-- ===== src/Deliverables/Evidence.antt =====
-- packages/domain/src/deliverables.ts: the links from a requirement to its evidence and the
-- records of the actions on it, with their validators (`assertCanonicalEvidenceLink` and
-- `assertCanonicalDeliverableActionRecord`), in the order of their tests.
use project_process_map.Base.{
  ℕ, Bool, true, false, not, ◌||◌, Option, List, any, length, leb, nat_beq, ◌!=◌,
}
use project_process_map.Base.Equality.{list_eq, nat_eq}
use project_process_map.Base.Results.{Result, ◌>>◌, throw_if}
use project_process_map.Base.Dates.{DateApi, is_some}
use project_process_map.Base.Checks.{drifts, given_and, is_not_positive, max_safe_integer}
use project_process_map.Base.Sets.{set_of}
use project_process_map.Base.Text.{Text}
use project_process_map.Base.Text.Shapes.{is_padded_or_empty}
use project_process_map.Security.Access.{is_no_timestamp}
use project_process_map.Deliverables.{EvidenceSourceType}
use project_process_map.Deliverables.Requirement.{is_unknown_source}

pub record EvidenceLink : Type 0 where
  pub tenant_id : Text
  pub id : Text
  pub requirement_id : Text
  pub source_type : EvidenceSourceType
  pub source_id : Text
  pub submitted_by_principal_id : Text
  pub linked_at_utc : Text
  pub version : ℕ

-- A stored row may hold any other string, which `unknown` stands for.
pub data DeliverableAction : Type 0 where
  initialized submitted accepted waived : DeliverableAction
  unknown : Text → DeliverableAction

pub record DeliverableActionRecord : Type 0 where
  pub tenant_id : Text
  pub id : Text
  pub requirement_id : Text
  pub action : DeliverableAction
  pub actor_principal_id : Text
  pub occurred_at_utc : Text
  pub reason : Option Text
  pub evidence_count : ℕ
  pub evidence_ids : List Text

pub data EvidenceFault : Type 0 where
  tenant_drift requirement_drift invalid_tenant invalid_id invalid_requirement : EvidenceFault
  invalid_source_type invalid_source invalid_submitter invalid_linked_at : EvidenceFault
  invalid_version invalid_action invalid_actor invalid_occurred_at : EvidenceFault
  invalid_evidence_count invalid_evidence_id repeated_evidence_id count_mismatch : EvidenceFault
  invalid_reason submission_without_evidence evidence_without_submission : EvidenceFault
  initialization_with_reason waiver_without_reason : EvidenceFault

pub record EvidenceScope : Type 0 where
  pub tenant_id : Option Text
  pub requirement_id : Option Text

abbrev pub EvidenceCheck : Type 0
EvidenceCheck = Result EvidenceFault (Unit {0})

unfoldable pub assert_canonical_evidence_link :
    DateApi → EvidenceScope → EvidenceLink → EvidenceCheck
assert_canonical_evidence_link d scope link = do
  throw_if (drifts scope.tenant_id link.tenant_id) tenant_drift
  throw_if (drifts scope.requirement_id link.requirement_id) requirement_drift
  throw_if (is_padded_or_empty link.tenant_id) invalid_tenant
  throw_if (is_padded_or_empty link.id) invalid_id
  throw_if (is_padded_or_empty link.requirement_id) invalid_requirement
  throw_if (is_unknown_source link.source_type) invalid_source_type
  throw_if (is_padded_or_empty link.source_id) invalid_source
  throw_if (is_padded_or_empty link.submitted_by_principal_id) invalid_submitter
  throw_if (is_no_timestamp d link.linked_at_utc) invalid_linked_at
  throw_if (is_not_positive link.version) invalid_version

abbrev pub is_unknown_action : DeliverableAction → Bool
is_unknown_action (unknown s) = true
is_unknown_action _ = false

-- The tests at the end, which go by the action.
unfoldable pub check_by_action : DeliverableActionRecord → DeliverableAction → EvidenceCheck
check_by_action r submitted =
    throw_if (is_some r.reason || nat_beq r.evidence_count 0) submission_without_evidence
check_by_action r initialized = do
  throw_if (not (nat_beq r.evidence_count 0)) evidence_without_submission
  throw_if (is_some r.reason) initialization_with_reason
check_by_action r accepted = throw_if (not (nat_beq r.evidence_count 0)) evidence_without_submission
check_by_action r waived = do
  throw_if (not (nat_beq r.evidence_count 0)) evidence_without_submission
  throw_if (not (is_some r.reason)) waiver_without_reason
check_by_action r (unknown s) =
    throw_if (not (nat_beq r.evidence_count 0)) evidence_without_submission

unfoldable pub assert_canonical_deliverable_action_record :
    DateApi → EvidenceScope → DeliverableActionRecord → EvidenceCheck
assert_canonical_deliverable_action_record d scope r = do
  throw_if (drifts scope.tenant_id r.tenant_id) tenant_drift
  throw_if (drifts scope.requirement_id r.requirement_id) requirement_drift
  throw_if (is_unknown_action r.action) invalid_action
  throw_if (is_padded_or_empty r.tenant_id) invalid_tenant
  throw_if (is_padded_or_empty r.id) invalid_id
  throw_if (is_padded_or_empty r.requirement_id) invalid_requirement
  throw_if (is_padded_or_empty r.actor_principal_id) invalid_actor
  throw_if (is_no_timestamp d r.occurred_at_utc) invalid_occurred_at
  throw_if (not (leb r.evidence_count max_safe_integer)) invalid_evidence_count
  throw_if (any is_padded_or_empty r.evidence_ids) invalid_evidence_id
  throw_if (length (set_of r.evidence_ids) != length r.evidence_ids) repeated_evidence_id
  throw_if (r.evidence_count != length r.evidence_ids) count_mismatch
  throw_if (given_and is_padded_or_empty r.reason) invalid_reason
  check_by_action r r.action
