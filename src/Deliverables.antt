-- ===== src/Deliverables.antt =====
-- packages/domain/src/deliverables.ts: the records of a deliverable and the three operations on a
-- requirement. A field has the type that the source declares for it, but for the two unions of
-- strings: a stored row may hold any other string, which `unknown` stands for.
pub mod Requirement
pub mod Canonical
pub mod Checks
pub mod Steps
pub mod Progress
pub mod Evidence
pub mod EvidenceChecks
use project_process_map.Base.{
  ℕ, ◌+◌, ◌≡◌, refl, Bool, true, false, not, ◌&&◌, ◌||◌, Option, none, some, arith, if◌then◌else◌,
  List, [], ◌∷◌,
}
use project_process_map.Base.Results.{Result, ok, err, ◌>>=◌, ◌>>◌, throw_if}
use project_process_map.Base.Text.{Text, trim, is_empty}

pub data DeliverableStatus : Type 0 where
  pending submitted accepted waived evidence_due : DeliverableStatus
  unknown : Text → DeliverableStatus

pub data EvidenceSourceType : Type 0 where
  file process_record : EvidenceSourceType
  unknown : Text → EvidenceSourceType

pub record DeliverableRequirement : Type 0 where
  pub tenant_id : Text
  pub id : Text
  pub project_id : Text
  pub owner_node_id : Text
  pub security_domain_id : Option Text
  pub security_epoch : ℕ
  pub requirement_key : Text
  pub title : Text
  pub description : Option Text
  pub required : Bool
  pub accepted_source_types : List EvidenceSourceType
  pub min_count : ℕ
  pub reviewer_principal_id : Text
  pub status : DeliverableStatus
  pub accepted_by_principal_id : Option Text
  pub accepted_at_utc : Option Text
  pub accepted_reason : Option Text
  pub waived_by_principal_id : Option Text
  pub waived_at_utc : Option Text
  pub waived_reason : Option Text
  pub version : ℕ
  pub created_at_utc : Text
  pub updated_at_utc : Text
  pub deleted_at_utc : Option Text

abbrev pub is_pending : DeliverableStatus → Bool
is_pending pending = true
is_pending _ = false

abbrev pub is_submitted : DeliverableStatus → Bool
is_submitted submitted = true
is_submitted _ = false

abbrev pub is_accepted : DeliverableStatus → Bool
is_accepted accepted = true
is_accepted _ = false

abbrev pub is_waived : DeliverableStatus → Bool
is_waived waived = true
is_waived _ = false

abbrev pub is_evidence_due : DeliverableStatus → Bool
is_evidence_due evidence_due = true
is_evidence_due _ = false

pub data DeliverableError : Type 0 where
  deliverable_is_terminal deliverable_already_submitted : DeliverableError
  deliverable_submit_transition_invalid deliverable_already_accepted : DeliverableError
  deliverable_accept_transition_invalid deliverable_already_waived : DeliverableError
  waiver_reason_required : DeliverableError

unfoldable pub submit_deliverable :
    DeliverableRequirement
    → (occurred_at_utc : Text) → Result DeliverableError DeliverableRequirement
submit_deliverable requirement occurred_at_utc = do
  throw_if (is_accepted requirement.status || is_waived requirement.status) deliverable_is_terminal
  throw_if (is_submitted requirement.status) deliverable_already_submitted
  throw_if (not (is_pending requirement.status) && not (is_evidence_due requirement.status))
      deliverable_submit_transition_invalid
  ok (record requirement {
    status = submitted;
    version = requirement.version + 1;
    updated_at_utc = occurred_at_utc;
  })

-- `reason?.trim() || null`
unfoldable pub trimmed_or_null : Option Text → Option Text
trimmed_or_null none = none
trimmed_or_null (some reason) = if is_empty (trim reason) then none else some (trim reason)

pub record Acceptance : Type 0 where
  pub accepted_by_principal_id : Text
  pub occurred_at_utc : Text
  pub accepted_reason : Option Text

unfoldable pub accept_deliverable :
    DeliverableRequirement → Acceptance → Result DeliverableError DeliverableRequirement
accept_deliverable requirement options = do
  throw_if (is_accepted requirement.status) deliverable_already_accepted
  throw_if (is_waived requirement.status) deliverable_is_terminal
  throw_if (not (is_submitted requirement.status)) deliverable_accept_transition_invalid
  ok (record requirement {
    status = accepted;
    accepted_by_principal_id = some options.accepted_by_principal_id;
    accepted_at_utc = some options.occurred_at_utc;
    accepted_reason = trimmed_or_null options.accepted_reason;
    version = requirement.version + 1;
    updated_at_utc = options.occurred_at_utc;
  })

pub record Waiver : Type 0 where
  pub waived_by_principal_id : Text
  pub occurred_at_utc : Text
  pub reason : Text

unfoldable pub waive_deliverable :
    DeliverableRequirement → Waiver → Result DeliverableError DeliverableRequirement
waive_deliverable requirement options = do
  throw_if (is_accepted requirement.status) deliverable_already_accepted
  throw_if (is_waived requirement.status) deliverable_already_waived
  throw_if (is_empty (trim options.reason)) waiver_reason_required
  ok (record requirement {
    status = waived;
    waived_by_principal_id = some options.waived_by_principal_id;
    waived_at_utc = some options.occurred_at_utc;
    waived_reason = some (trim options.reason);
    version = requirement.version + 1;
    updated_at_utc = options.occurred_at_utc;
  })
