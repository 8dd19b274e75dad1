-- ===== src/Examples/Integrations.antt =====
-- An operation that fails once and then completes.
use project_process_map.Base.{◌≡◌, ◌≢◌, ◌+◌, ◌≤◌, refl, true, none, some, inl, inr}
use project_process_map.Base.Results.{ok}
use project_process_map.Base.Text.{text}
use project_process_map.Integrations.{
  asset_ingest, planned, running, retryable, completed, asset, IntegrationOperation, Change,
  advance_integration_operation,
}
use project_process_map.Integrations.Runs.{
  Run, here, next, final_stays, IsExplained, Keeps, Run-Keeps, completes_running,
}
use project_process_map.Examples.Clock.{noon, evening, text_tests}

abbrev pub ingest : IntegrationOperation
ingest = record {
  tenant_id = text "t";
  id = text "op";
  operation_type = asset_ingest;
  subject_type = asset;
  subject_id = text "a";
  fingerprint = text "f";
  state = planned;
  current_step = text "start";
  attempts = 0;
  external_request_id = text "r";
  external_reference = none;
  expected_sync_watermark = none;
  next_attempt_at_utc = none;
  deadline_at_utc = evening;
  last_error = none;
  version = 1;
  created_at_utc = noon;
  updated_at_utc = noon;
  lease_token = none;
}

abbrev to_running : Change
to_running = record {
  state = running;
  current_step = text "copy";
  occurred_at_utc = noon;
  external_reference = none;
  expected_sync_watermark = none;
  next_attempt_at_utc = none;
  last_error = none;
  increment_attempt = some true;
  lease_token = none;
}

abbrev to_retry : Change
to_retry = record to_running {
  state = retryable;
  last_error = some (some (text "timeout"));
  increment_attempt = none;
}

abbrev to_completed : Change
to_completed = record to_running { state = completed; increment_attempt = none }

abbrev moving : IntegrationOperation
moving = record ingest {
  state = running;
  current_step = text "copy";
  attempts = 1;
  version = 2;
  lease_token = some none;
}

abbrev waiting : IntegrationOperation
waiting = record moving { state = retryable; last_error = some (text "timeout"); version = 3 }

abbrev again : IntegrationOperation
again = record waiting { state = running; last_error = none; attempts = 2; version = 4 }

abbrev ended : IntegrationOperation
ended = record again { state = completed; version = 5 }

run_ingest : advance_integration_operation ingest to_running ≡ ok moving
unfolding advance_integration_operation
run_ingest = refl

retry_moving : advance_integration_operation moving to_retry ≡ ok waiting
unfolding advance_integration_operation text_tests
retry_moving = refl

run_waiting : advance_integration_operation waiting to_running ≡ ok again
unfolding advance_integration_operation
run_waiting = refl

complete_again : advance_integration_operation again to_completed ≡ ok ended
unfolding advance_integration_operation
complete_again = refl

abbrev run_to_waiting : Run ingest waiting
run_to_waiting = next (next here to_running run_ingest) to_retry retry_moving

ingest-IsExplained : IsExplained ingest
ingest-IsExplained (inl e) = cc
ingest-IsExplained (inr e) = cc

Run-Keeps_example :
    Keeps ingest ended
    × (ingest.version ≤ ended.version)
    × (ingest.attempts ≤ ended.attempts)
    × (ended.attempts + ingest.version ≤ ingest.attempts + ended.version)
Run-Keeps_example =
    Run-Keeps (next (next run_to_waiting to_running run_waiting) to_completed complete_again)

completes_running_example : again.state ≡ running
completes_running_example = completes_running again ended to_completed complete_again refl

final_stays_example : advance_integration_operation ended to_retry ≢ ok waiting
final_stays_example = final_stays ended waiting to_retry (inl refl)
