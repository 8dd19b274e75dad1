-- ===== src/Examples/Deliverables.antt =====
-- A requirement that is submitted and accepted.
use project_process_map.Base.{◌≡◌, refl, true, none, some, [], ◌∷◌, arith}
use project_process_map.Base.Results.{ok}
use project_process_map.Base.Text.{text}
use project_process_map.Base.Text.Shapes.{IsCanonicalText}
use project_process_map.Deliverables.{
  DeliverableRequirement, DeliverableStatus, EvidenceSourceType, Acceptance, submit_deliverable,
  accept_deliverable, trimmed_or_null,
}
use project_process_map.Deliverables.Requirement.{
  RequirementScope, assert_canonical_deliverable_requirement,
}
use project_process_map.Deliverables.Canonical.{IsCanonical}
use project_process_map.Deliverables.Checks.{accepted_iff_IsCanonical}
use project_process_map.Deliverables.Steps.{Reach, here, next, submit, accept, reached_accepted}
use project_process_map.Examples.Clock.{
  clock, noon, evening, text_tests, noon_is_canonical, evening_is_canonical,
}

abbrev scope : RequirementScope
scope = record {
  tenant_id = some (text "t");
  project_id = some (text "p");
  owner_node_id = none;
  id = none;
}

abbrev report : DeliverableRequirement
report = record {
  tenant_id = text "t";
  id = text "d";
  project_id = text "p";
  owner_node_id = text "n";
  security_domain_id = none;
  security_epoch = 1;
  requirement_key = text "test-report";
  title = text "Report";
  description = none;
  required = true;
  accepted_source_types = EvidenceSourceType.file ∷ [];
  min_count = 1;
  reviewer_principal_id = text "bob";
  status = DeliverableStatus.pending;
  accepted_by_principal_id = none;
  accepted_at_utc = none;
  accepted_reason = none;
  waived_by_principal_id = none;
  waived_at_utc = none;
  waived_reason = none;
  version = 1;
  created_at_utc = noon;
  updated_at_utc = noon;
  deleted_at_utc = none;
}

abbrev sent : DeliverableRequirement
sent = record report { status = DeliverableStatus.submitted; version = 2 }

abbrev acceptance : Acceptance
acceptance = record {
  accepted_by_principal_id = text "bob";
  occurred_at_utc = evening;
  accepted_reason = some (text " fine ");
}

abbrev approved : DeliverableRequirement
approved = record sent {
  status = DeliverableStatus.accepted;
  accepted_by_principal_id = some (text "bob");
  accepted_at_utc = some evening;
  accepted_reason = some (text "fine");
  version = 3;
  updated_at_utc = evening;
}

submit_report : submit_deliverable report noon ≡ ok sent
unfolding submit_deliverable
submit_report = refl

accept_sent : accept_deliverable sent acceptance ≡ ok approved
unfolding accept_deliverable trimmed_or_null text_tests
accept_sent = refl

report_passes : assert_canonical_deliverable_requirement clock scope report ≡ ok tt
unfolding assert_canonical_deliverable_requirement text_tests
report_passes = refl

bob_is_canonical : IsCanonicalText acceptance.accepted_by_principal_id
unfolding text_tests
bob_is_canonical = record { trimmed = refl; filled = λ e. cc }

abbrev life : Reach clock report approved
life =
    next (next here (submit noon noon_is_canonical submit_report))
      (accept acceptance bob_is_canonical evening_is_canonical accept_sent)

accepted_iff_IsCanonical_example : IsCanonical clock scope report
accepted_iff_IsCanonical_example = (accepted_iff_IsCanonical clock scope report).0 report_passes

reached_accepted_example : assert_canonical_deliverable_requirement clock scope approved ≡ ok tt
reached_accepted_example = reached_accepted scope life (omega arith) report_passes
