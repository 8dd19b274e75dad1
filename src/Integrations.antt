-- ===== src/Integrations.antt =====
-- packages/domain/src/integration-operations.ts and external-reference.ts: the operations that the
-- worker carries out against an external system, and their state machine.
pub mod Runs
use project_process_map.Base.{
  ℕ, ◌+◌, ◌≡◌, refl, Bool, true, false, not, ◌&&◌, ◌||◌, Option, none, some, List, [], ◌∷◌, ◌++◌,
  if◌then◌else◌, Eq, ◌==◌, ◌!=◌, arith,
}
use project_process_map.Base.Equality.{enum_eq, option_eq, list_eq, nat_eq}
use project_process_map.Base.Results.{Result, ok, err, ◌>>=◌, ◌>>◌, throw_if}
use project_process_map.Base.Sets.{contains}
use project_process_map.Base.Text.{Text, is_blank}

pub record ExternalReference : Type 0 where
  pub provider : Text
  pub kind : Text
  pub external_id : Text
  pub schema_version : ℕ

pub data ReferenceError : Type 0 where
  provider_is_required kind_is_required external_id_is_required : ReferenceError

unfoldable pub external_reference :
    (provider kind external_id : Text) → Result ReferenceError ExternalReference
external_reference provider kind external_id = do
  throw_if (is_blank provider) provider_is_required
  throw_if (is_blank kind) kind_is_required
  throw_if (is_blank external_id) external_id_is_required
  ok (record { provider = provider; kind = kind; external_id = external_id; schema_version = 1 })

pub data IntegrationOperationType : Type 0 where
  asset_ingest collaboration_task_project collaboration_asset_project blob_delete :
      IntegrationOperationType

pub data IntegrationOperationState : Type 0 where
  planned running retryable completed compensated recovery_required : IntegrationOperationState

abbrev pub state_rank : IntegrationOperationState → ℕ
state_rank planned = 0
state_rank running = 1
state_rank retryable = 2
state_rank completed = 3
state_rank compensated = 4
state_rank recovery_required = 5

pub state_rank_injective : (a b : IntegrationOperationState) → state_rank a ≡ state_rank b → a ≡ b
state_rank_injective a b h = ground arith

instance abbrev pub state_eq : Eq IntegrationOperationState
state_eq = enum_eq state_rank state_rank_injective

pub data SubjectType : Type 0 where
  task asset : SubjectType

-- `leaseToken?: string | null` is `none` where it is undefined.
pub record IntegrationOperation : Type 0 where
  pub tenant_id : Text
  pub id : Text
  pub operation_type : IntegrationOperationType
  pub subject_type : SubjectType
  pub subject_id : Text
  pub fingerprint : Text
  pub state : IntegrationOperationState
  pub current_step : Text
  pub attempts : ℕ
  pub external_request_id : Text
  pub external_reference : Option ExternalReference
  pub expected_sync_watermark : Option Text
  pub next_attempt_at_utc : Option Text
  pub deadline_at_utc : Text
  pub last_error : Option Text
  pub version : ℕ
  pub created_at_utc : Text
  pub updated_at_utc : Text
  pub lease_token : Option (Option Text)

-- A field of type `T | null` that may be left out.
abbrev pub Maybe : Type 0 → Type 0
Maybe A = Option (Option A)

pub record Change : Type 0 where
  pub state : IntegrationOperationState
  pub current_step : Text
  pub occurred_at_utc : Text
  pub external_reference : Maybe ExternalReference
  pub expected_sync_watermark : Maybe Text
  pub next_attempt_at_utc : Maybe Text
  pub last_error : Maybe Text
  pub increment_attempt : Option Bool
  pub lease_token : Maybe Text

pub data IntegrationError : Type 0 where
  integration_operation_is_terminal integration_operation_transition_invalid : IntegrationError
  integration_operation_error_required : IntegrationError

unfoldable pub allowed : IntegrationOperationState → List IntegrationOperationState
allowed planned = running ∷ recovery_required ∷ []
allowed running = running ∷ retryable ∷ completed ∷ compensated ∷ recovery_required ∷ []
allowed retryable = running ∷ retryable ∷ recovery_required ∷ []
allowed recovery_required = retryable ∷ compensated ∷ []
allowed completed = []
allowed compensated = []

-- `!change.lastError?.trim()`
abbrev pub lacks_error : Maybe Text → Bool
lacks_error none = true
lacks_error (some none) = true
lacks_error (some (some s)) = is_blank s

-- `change === undefined ? current : change`
abbrev pub or_current : {A : Type 0} → Maybe A → Option A → Option A
or_current none current = current
or_current (some change) current = change

-- `change.lastError === undefined ? null : change.lastError`, and `leaseToken ?? null`
abbrev pub or_null : {A : Type 0} → Maybe A → Option A
or_null none = none
or_null (some value) = value

abbrev pub is_true : Option Bool → Bool
is_true (some true) = true
is_true _ = false

unfoldable pub advance_integration_operation :
    IntegrationOperation → Change → Result IntegrationError IntegrationOperation
unfolding allowed
advance_integration_operation operation change = do
  throw_if (operation.state == completed || operation.state == compensated)
      integration_operation_is_terminal
  throw_if (not (contains (allowed operation.state) change.state))
      integration_operation_transition_invalid
  throw_if
      ((change.state == retryable || change.state == recovery_required)
        && lacks_error change.last_error)
      integration_operation_error_required
  ok (record operation {
    state = change.state;
    current_step = change.current_step;
    attempts = operation.attempts + (if is_true change.increment_attempt then 1 else 0);
    external_reference = or_current change.external_reference operation.external_reference;
    expected_sync_watermark =
        or_current change.expected_sync_watermark operation.expected_sync_watermark;
    next_attempt_at_utc = or_current change.next_attempt_at_utc operation.next_attempt_at_utc;
    last_error = or_null change.last_error;
    lease_token = some (or_current change.lease_token (or_null operation.lease_token));
    version = operation.version + 1;
    updated_at_utc = change.occurred_at_utc;
  })
