-- ===== src/Deliverables/Requirement.antt =====
-- `assertCanonicalDeliverableRequirement` of packages/domain/src/deliverables.ts, in the order of
-- its tests. The tests on `typeof` pass for every value of the record's type. A fault stands for
-- the message of the thrown error, without the values that the message quotes.
use project_process_map.Base.{Bool, true, false, not, ◌||◌, Option, none, some, List, [], ◌∷◌, any}
use project_process_map.Base.Equality.{list_eq, nat_eq}
use project_process_map.Base.Results.{Result, ◌>>◌, throw_if, when}
use project_process_map.Base.Dates.{DateApi, is_some}
use project_process_map.Base.Checks.{drifts, given_and, is_not_positive}
use project_process_map.Base.Text.{Text, is_blank}
use project_process_map.Base.Text.Shapes.{is_key, is_padded_or_empty}
use project_process_map.Security.Access.{is_no_timestamp}
use project_process_map.Deliverables.{
  DeliverableStatus, EvidenceSourceType, DeliverableRequirement, is_pending, is_submitted,
  is_accepted, is_waived, is_evidence_due,
}

pub data RequirementFault : Type 0 where
  tenant_drift project_drift owner_node_drift id_drift : RequirementFault
  invalid_tenant invalid_id invalid_project invalid_owner_node : RequirementFault
  invalid_key invalid_title no_source_types invalid_source_type invalid_min_count : RequirementFault
  invalid_reviewer invalid_status invalid_version invalid_epoch invalid_domain : RequirementFault
  invalid_timestamp invalid_deletion accepted_by_missing accepted_at_invalid : RequirementFault
  accepted_with_waiver waived_by_missing waived_at_invalid waived_reason_missing : RequirementFault
  waived_with_acceptance open_with_acceptance open_with_waiver : RequirementFault
  invalid_accepted_by invalid_accepted_at invalid_accepted_reason : RequirementFault
  invalid_waived_by invalid_waived_at invalid_waived_reason : RequirementFault

pub record RequirementScope : Type 0 where
  pub tenant_id : Option Text
  pub project_id : Option Text
  pub owner_node_id : Option Text
  pub id : Option Text

abbrev pub Check : Type 0
Check = Result RequirementFault (Unit {0})

unfoldable pub check_scope : RequirementScope → DeliverableRequirement → Check
check_scope scope r = do
  throw_if (drifts scope.tenant_id r.tenant_id) tenant_drift
  throw_if (drifts scope.project_id r.project_id) project_drift
  throw_if (drifts scope.owner_node_id r.owner_node_id) owner_node_drift
  throw_if (drifts scope.id r.id) id_drift

unfoldable pub check_identity : DeliverableRequirement → Check
check_identity r = do
  throw_if (is_padded_or_empty r.tenant_id) invalid_tenant
  throw_if (is_padded_or_empty r.id) invalid_id
  throw_if (is_padded_or_empty r.project_id) invalid_project
  throw_if (is_padded_or_empty r.owner_node_id) invalid_owner_node
  throw_if (not (is_key r.requirement_key)) invalid_key
  throw_if (is_blank r.title) invalid_title

abbrev pub is_unknown_source : EvidenceSourceType → Bool
is_unknown_source EvidenceSourceType.file = false
is_unknown_source EvidenceSourceType.process_record = false
is_unknown_source (EvidenceSourceType.unknown s) = true

abbrev pub is_none_given : List EvidenceSourceType → Bool
is_none_given [] = true
is_none_given (s ∷ ss) = false

abbrev pub is_unknown_status : DeliverableStatus → Bool
is_unknown_status (DeliverableStatus.unknown s) = true
is_unknown_status _ = false

unfoldable pub check_policy : DeliverableRequirement → Check
check_policy r = do
  throw_if (is_none_given r.accepted_source_types) no_source_types
  throw_if (any is_unknown_source r.accepted_source_types) invalid_source_type
  throw_if (is_not_positive r.min_count) invalid_min_count
  throw_if (is_padded_or_empty r.reviewer_principal_id) invalid_reviewer
  throw_if (is_unknown_status r.status) invalid_status
  throw_if (is_not_positive r.version) invalid_version
  throw_if (is_not_positive r.security_epoch) invalid_epoch
  throw_if (given_and is_blank r.security_domain_id) invalid_domain

abbrev pub has_waiver : DeliverableRequirement → Bool
has_waiver r =
    is_some r.waived_by_principal_id || is_some r.waived_at_utc || is_some r.waived_reason

abbrev pub has_acceptance : DeliverableRequirement → Bool
has_acceptance r =
    is_some r.accepted_by_principal_id || is_some r.accepted_at_utc || is_some r.accepted_reason

-- `typeof value !== "string" || value.trim() !== value || value.length === 0`
abbrev pub is_missing_reason : Option Text → Bool
is_missing_reason none = true
is_missing_reason (some s) = is_padded_or_empty s

unfoldable pub check_open : DeliverableRequirement → Check
check_open r = do
  throw_if (has_acceptance r) open_with_acceptance
  throw_if (has_waiver r) open_with_waiver

module _ (d : DateApi) where
  -- `typeof value !== "string" || !isCanonicalUtcTimestamp(value)`
  abbrev pub is_missing_timestamp : Option Text → Bool
  is_missing_timestamp none = true
  is_missing_timestamp (some s) = is_no_timestamp d s

  unfoldable pub check_times : DeliverableRequirement → Check
  check_times r = do
    throw_if (is_no_timestamp d r.created_at_utc || is_no_timestamp d r.updated_at_utc)
        invalid_timestamp
    throw_if (given_and (is_no_timestamp d) r.deleted_at_utc) invalid_deletion

  unfoldable pub check_accepted : DeliverableRequirement → Check
  check_accepted r = do
    throw_if (not (is_some r.accepted_by_principal_id)) accepted_by_missing
    throw_if (is_missing_timestamp r.accepted_at_utc) accepted_at_invalid
    throw_if (has_waiver r) accepted_with_waiver

  unfoldable pub check_waived : DeliverableRequirement → Check
  check_waived r = do
    throw_if (not (is_some r.waived_by_principal_id)) waived_by_missing
    throw_if (is_missing_timestamp r.waived_at_utc) waived_at_invalid
    throw_if (is_missing_reason r.waived_reason) waived_reason_missing
    throw_if (has_acceptance r) waived_with_acceptance

  -- The three `if (requirement.status === ...)` blocks.
  unfoldable pub check_settlement : DeliverableRequirement → Check
  unfolding check_accepted check_waived check_open
  check_settlement r = do
    when (is_accepted r.status) (check_accepted r)
    when (is_waived r.status) (check_waived r)
    when (is_pending r.status || is_submitted r.status || is_evidence_due r.status) (check_open r)

  unfoldable pub check_marks : DeliverableRequirement → Check
  check_marks r = do
    throw_if (given_and is_padded_or_empty r.accepted_by_principal_id) invalid_accepted_by
    throw_if (given_and (is_no_timestamp d) r.accepted_at_utc) invalid_accepted_at
    throw_if (given_and is_padded_or_empty r.accepted_reason) invalid_accepted_reason
    throw_if (given_and is_padded_or_empty r.waived_by_principal_id) invalid_waived_by
    throw_if (given_and (is_no_timestamp d) r.waived_at_utc) invalid_waived_at
    throw_if (given_and is_padded_or_empty r.waived_reason) invalid_waived_reason

  unfoldable pub assert_canonical_deliverable_requirement :
      RequirementScope → DeliverableRequirement → Check
  unfolding check_scope check_identity check_policy check_times check_settlement check_marks
  assert_canonical_deliverable_requirement scope r = do
    check_scope scope r
    check_identity r
    check_policy r
    check_times r
    check_settlement r
    check_marks r
