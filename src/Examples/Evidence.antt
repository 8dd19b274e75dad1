-- ===== src/Examples/Evidence.antt =====
-- A submission of one piece of evidence.
use project_process_map.Base.{◌≡◌, refl, none, some, [], ◌∷◌}
use project_process_map.Base.Results.{ok}
use project_process_map.Base.Sets.{set_from}
use project_process_map.Base.Text.{text}
use project_process_map.Deliverables.{EvidenceSourceType}
use project_process_map.Deliverables.Evidence.{
  EvidenceLink, DeliverableAction, DeliverableActionRecord, EvidenceScope, check_by_action,
  assert_canonical_evidence_link, assert_canonical_deliverable_action_record,
}
use project_process_map.Deliverables.EvidenceChecks.{IsCanonicalAction, action_accepted_iff}
use project_process_map.Examples.Clock.{clock, noon, text_tests}

abbrev scope : EvidenceScope
scope = record { tenant_id = some (text "t"); requirement_id = some (text "d") }

abbrev link : EvidenceLink
link = record {
  tenant_id = text "t";
  id = text "e1";
  requirement_id = text "d";
  source_type = EvidenceSourceType.file;
  source_id = text "asset-1";
  submitted_by_principal_id = text "ann";
  linked_at_utc = noon;
  version = 1;
}

abbrev submission : DeliverableActionRecord
submission = record {
  tenant_id = text "t";
  id = text "act-1";
  requirement_id = text "d";
  action = DeliverableAction.submitted;
  actor_principal_id = text "ann";
  occurred_at_utc = noon;
  reason = none;
  evidence_count = 2;
  evidence_ids = text "e1" ∷ text "e2" ∷ [];
}

link_passes : assert_canonical_evidence_link clock scope link ≡ ok tt
unfolding assert_canonical_evidence_link text_tests
link_passes = refl

submission_passes : assert_canonical_deliverable_action_record clock scope submission ≡ ok tt
unfolding assert_canonical_deliverable_action_record check_by_action set_from text_tests
submission_passes = refl

action_accepted_iff_example : IsCanonicalAction clock scope submission
action_accepted_iff_example = (action_accepted_iff clock scope submission).0 submission_passes
