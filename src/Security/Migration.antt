-- ===== src/Security/Migration.antt =====
-- packages/domain/src/security-migration.ts: the state machine of a migration between two security
-- domains. The record's field `id` and the others keep the source's names.
pub mod Progress
pub mod Proposals
use project_process_map.Base.{
  ℕ, ◌+◌, ◌≡◌, refl, Bool, true, false, not, ◌&&◌, ◌||◌, Option, none, some, List, [], ◌∷◌, leb,
  ltb, if◌then◌else◌, Eq, ◌==◌, ◌!=◌, arith,
}
use project_process_map.Base.Equality.{enum_eq, option_eq, list_eq, nat_eq}
use project_process_map.Base.Results.{Result, ok, err, ◌>>=◌, ◌>>◌, throw_if}
use project_process_map.Base.Checks.{max_safe_integer}
use project_process_map.Base.Dates.{DateApi, is_utc}
use project_process_map.Base.Sets.{contains}
use project_process_map.Base.Text.{Text, is_blank}

pub data SecurityDomainMigrationState : Type 0 where
  planned active verifying committed retryable recovery_required rolled_back :
      SecurityDomainMigrationState

abbrev pub state_rank : SecurityDomainMigrationState → ℕ
state_rank planned = 0
state_rank active = 1
state_rank verifying = 2
state_rank committed = 3
state_rank retryable = 4
state_rank recovery_required = 5
state_rank rolled_back = 6

pub state_rank_injective :
    (a b : SecurityDomainMigrationState) → state_rank a ≡ state_rank b → a ≡ b
state_rank_injective a b h = ground arith

instance abbrev pub state_eq : Eq SecurityDomainMigrationState
state_eq = enum_eq state_rank state_rank_injective

pub record SecurityDomainMigration : Type 0 where
  pub tenant_id : Text
  pub id : Text
  pub project_id : Text
  pub root_node_id : Text
  pub source_security_domain_id : Option Text
  pub target_security_domain_id : Option Text
  pub hierarchy_revision : ℕ
  pub source_security_epoch : ℕ
  pub target_security_epoch : ℕ
  pub state : SecurityDomainMigrationState
  pub cursor : Option Text
  pub total_items : ℕ
  pub migrated_items : ℕ
  pub failure : Option Text
  pub next_attempt_at_utc : Option Text
  pub deadline_at_utc : Text
  pub version : ℕ
  pub created_at_utc : Text
  pub updated_at_utc : Text

pub data MigrationError : Type 0 where
  security_migration_plan_invalid security_migration_transition_invalid : MigrationError
  security_migration_failure_required invalid_utc_timestamp : MigrationError
  security_migration_checkpoint_forbidden security_migration_cursor_required : MigrationError
  security_migration_progress_invalid : MigrationError

-- `Number.isSafeInteger(n)`, and `n > 0` too.
abbrev pub is_safe : ℕ → Bool
is_safe n = leb n max_safe_integer

abbrev pub is_positive : ℕ → Bool
is_positive n = is_safe n && ltb 0 n

unfoldable pub has_initial_progress : SecurityDomainMigration → Bool
has_initial_progress m =
    m.state == planned
    && m.cursor == none
    && m.migrated_items == 0
    && m.failure == none
    && m.next_attempt_at_utc == none
    && m.version == 1
    && m.created_at_utc == m.updated_at_utc

unfoldable pub changes_ownership : SecurityDomainMigration → Bool
changes_ownership m =
    m.source_security_domain_id != m.target_security_domain_id
    || m.source_security_epoch != m.target_security_epoch

unfoldable pub assert_security_migration_initial_plan :
    DateApi → SecurityDomainMigration → Result MigrationError (Unit {0})
assert_security_migration_initial_plan d m = do
  throw_if (not (is_utc d m.created_at_utc) || not (is_utc d m.deadline_at_utc))
      security_migration_plan_invalid
  throw_if
      (not valid_identifiers
        || not valid_numbers
        || not (has_initial_progress m)
        || not (changes_ownership m))
      security_migration_plan_invalid
  where
    valid_identifiers : Bool
    valid_identifiers =
        not (is_blank m.id) && not (is_blank m.project_id) && not (is_blank m.root_node_id)

    valid_numbers : Bool
    valid_numbers =
        is_safe m.hierarchy_revision
        && is_positive m.source_security_epoch
        && is_positive m.target_security_epoch
        && is_safe m.total_items

-- Both domains count while objects move.
abbrev pub is_moving : SecurityDomainMigrationState → Bool
is_moving s = contains (active ∷ verifying ∷ retryable ∷ recovery_required ∷ []) s

unfoldable pub effective_security_domains : SecurityDomainMigration → List (Option Text)
effective_security_domains m =
    if is_moving m.state
    then if m.source_security_domain_id == m.target_security_domain_id
      then m.source_security_domain_id ∷ []
      else m.source_security_domain_id ∷ m.target_security_domain_id ∷ []
    else (if m.state == committed then m.target_security_domain_id else m.source_security_domain_id)
      ∷ []

-- The table of `transitionSecurityMigration`.
unfoldable pub allowed : SecurityDomainMigrationState → List SecurityDomainMigrationState
allowed planned = active ∷ rolled_back ∷ []
allowed active = verifying ∷ retryable ∷ recovery_required ∷ rolled_back ∷ []
allowed verifying = committed ∷ retryable ∷ recovery_required ∷ rolled_back ∷ []
allowed retryable = active ∷ verifying ∷ recovery_required ∷ rolled_back ∷ []
allowed recovery_required = active ∷ verifying ∷ rolled_back ∷ []
allowed committed = []
allowed rolled_back = []

-- `failure === null || failure.trim().length === 0`
abbrev pub is_missing_or_blank : Option Text → Bool
is_missing_or_blank none = true
is_missing_or_blank (some s) = is_blank s

unfoldable pub transition_security_migration :
    DateApi
    → SecurityDomainMigration
    → (target : SecurityDomainMigrationState) (occurred_at_utc : Text) (failure : Option Text)
    → Result MigrationError SecurityDomainMigration
unfolding allowed
transition_security_migration d m target occurred_at_utc failure = do
  throw_if (not (contains (allowed m.state) target)) security_migration_transition_invalid
  throw_if ((target == retryable || target == recovery_required) && is_missing_or_blank failure)
      security_migration_failure_required
  throw_if (not (is_utc d occurred_at_utc)) invalid_utc_timestamp
  ok (record m {
    state = target;
    failure = failure;
    next_attempt_at_utc = if target == retryable then some occurred_at_utc else none;
    version = m.version + 1;
    updated_at_utc = occurred_at_utc;
  })

pub record Checkpoint : Type 0 where
  pub cursor : Text
  pub migrated_items : ℕ
  pub occurred_at_utc : Text

unfoldable pub checkpoint_security_migration :
    DateApi → SecurityDomainMigration → Checkpoint → Result MigrationError SecurityDomainMigration
checkpoint_security_migration d m checkpoint = do
  throw_if (m.state != active) security_migration_checkpoint_forbidden
  throw_if (is_blank checkpoint.cursor) security_migration_cursor_required
  throw_if
      (not (is_safe checkpoint.migrated_items)
        || ltb checkpoint.migrated_items m.migrated_items
        || ltb m.total_items checkpoint.migrated_items)
      security_migration_progress_invalid
  throw_if (not (is_utc d checkpoint.occurred_at_utc)) invalid_utc_timestamp
  ok (record m {
    cursor = some checkpoint.cursor;
    migrated_items = checkpoint.migrated_items;
    version = m.version + 1;
    updated_at_utc = checkpoint.occurred_at_utc;
  })

unfoldable pub same_migration : SecurityDomainMigration → SecurityDomainMigration → Bool
same_migration left right =
    left.tenant_id == right.tenant_id
    && left.id == right.id
    && left.project_id == right.project_id
    && left.root_node_id == right.root_node_id
    && left.source_security_domain_id == right.source_security_domain_id
    && left.target_security_domain_id == right.target_security_domain_id
    && left.hierarchy_revision == right.hierarchy_revision
    && left.source_security_epoch == right.source_security_epoch
    && left.target_security_epoch == right.target_security_epoch
    && left.state == right.state
    && left.cursor == right.cursor
    && left.total_items == right.total_items
    && left.migrated_items == right.migrated_items
    && left.failure == right.failure
    && left.next_attempt_at_utc == right.next_attempt_at_utc
    && left.deadline_at_utc == right.deadline_at_utc
    && left.version == right.version
    && left.created_at_utc == right.created_at_utc
    && left.updated_at_utc == right.updated_at_utc

-- `proposed.cursor ?? ""`
abbrev pub or_empty : Option Text → Text
or_empty none = []
or_empty (some s) = s

unfoldable pub expected_progress :
    DateApi
    → SecurityDomainMigration
    → SecurityDomainMigration
    → Result MigrationError SecurityDomainMigration
expected_progress d current proposed =
    if current.state == proposed.state
    then checkpoint_security_migration d current (record {
      cursor = or_empty proposed.cursor;
      migrated_items = proposed.migrated_items;
      occurred_at_utc = proposed.updated_at_utc;
    })
    else transition_security_migration d current proposed.state proposed.updated_at_utc
        proposed.failure

unfoldable pub assert_security_migration_progress_change :
    DateApi → SecurityDomainMigration → SecurityDomainMigration → Result MigrationError (Unit {0})
unfolding expected_progress
assert_security_migration_progress_change d current proposed = do
  expected ← expected_progress d current proposed
  throw_if (not (same_migration expected proposed)) security_migration_progress_invalid
