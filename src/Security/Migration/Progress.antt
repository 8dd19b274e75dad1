-- ===== src/Security/Migration/Progress.antt =====
-- What the operations of packages/domain/src/security-migration.ts keep, and that the test on a
-- proposed row accepts exactly their results.
use project_process_map.Base.{◌+◌, ◌≤◌, ◌≡◌, ◌≢◌, ◌⊎◌, Option, none, arith}
use project_process_map.Base.Equality.{option_eq, list_eq, nat_eq}
use project_process_map.Base.Results.{ok}
use project_process_map.Base.Dates.{DateApi}
use project_process_map.Base.Text.{Text}
use project_process_map.Security.Migration.{
  SecurityDomainMigration, SecurityDomainMigrationState, planned, verifying, committed, retryable,
  recovery_required, rolled_back, state_eq, transition_security_migration, Checkpoint,
  checkpoint_security_migration,
}

pub data Step (d : DateApi) (m : SecurityDomainMigration) : SecurityDomainMigration → Type 0 where
  transition :
      {u : SecurityDomainMigration} (target : SecurityDomainMigrationState) (at_utc : Text)
      (failure : Option Text)
      → transition_security_migration d m target at_utc failure ≡ ok u
      → Step d m u
  checkpoint :
      {u : SecurityDomainMigration} (c : Checkpoint)
      → checkpoint_security_migration d m c ≡ ok u
      → Step d m u

pub data Reach (d : DateApi) (m : SecurityDomainMigration) : SecurityDomainMigration → Type 0 where
  here : Reach d m m
  next : {u v : SecurityDomainMigration} → Reach d m u → Step d u v → Reach d m v

-- The state, the progress and the failure of a row agree.
pub record IsSound (m : SecurityDomainMigration) : Type 0 where
  pub bounded : m.migrated_items ≤ m.total_items
  pub started : m.cursor ≡ none → m.migrated_items ≡ 0
  pub idle : m.state ≡ planned → m.migrated_items ≡ 0
  pub explained : (m.state ≡ retryable) ⊎ (m.state ≡ recovery_required) → m.failure ≢ none
  pub scheduled : m.state ≡ retryable → m.next_attempt_at_utc ≢ none
  pub unscheduled : m.state ≢ retryable → m.next_attempt_at_utc ≡ none

-- What no operation changes.
pub record KeepsPlan (m u : SecurityDomainMigration) : Type 0 where
  pub tenant : u.tenant_id ≡ m.tenant_id
  pub id : u.id ≡ m.id
  pub project : u.project_id ≡ m.project_id
  pub root : u.root_node_id ≡ m.root_node_id
  pub source : u.source_security_domain_id ≡ m.source_security_domain_id
  pub target : u.target_security_domain_id ≡ m.target_security_domain_id
  pub hierarchy : u.hierarchy_revision ≡ m.hierarchy_revision
  pub source_epoch : u.source_security_epoch ≡ m.source_security_epoch
  pub target_epoch : u.target_security_epoch ≡ m.target_security_epoch
  pub total : u.total_items ≡ m.total_items
  pub deadline : u.deadline_at_utc ≡ m.deadline_at_utc
  pub created : u.created_at_utc ≡ m.created_at_utc

pub Step-IsSound :
    {d : DateApi} {m u : SecurityDomainMigration} → Step d m u → IsSound m → IsSound u
unfolding transition_security_migration checkpoint_security_migration
Step-IsSound (transition target at_utc failure e) s = ground arith
Step-IsSound (checkpoint c e) s = ground arith

pub Step-KeepsPlan :
    {d : DateApi} {m u : SecurityDomainMigration}
    → Step d m u
    → KeepsPlan m u × (u.version ≡ m.version + 1) × (m.migrated_items ≤ u.migrated_items)
unfolding transition_security_migration checkpoint_security_migration
Step-KeepsPlan (transition target at_utc failure e) = ground arith
Step-KeepsPlan (checkpoint c e) = ground arith

KeepsPlan-refl : (m : SecurityDomainMigration) → KeepsPlan m m
KeepsPlan-refl m = ground arith

KeepsPlan-trans : {m u v : SecurityDomainMigration} → KeepsPlan m u → KeepsPlan u v → KeepsPlan m v
KeepsPlan-trans a b = ground arith

-- Transitions and checkpoints keep a migration sound: the progress stays within the total, nothing is counted without a cursor or while only planned, a retryable or stuck migration names its failure, and a next attempt is planned exactly in the state retryable.
pub Reach-IsSound :
    {d : DateApi} {m u : SecurityDomainMigration} → Reach d m u → IsSound m → IsSound u
Reach-IsSound here s = s
Reach-IsSound (next r st) s = Step-IsSound st (Reach-IsSound r s)

-- Transitions and checkpoints keep what was planned (the ends, the epochs, the root, the total, the deadline), and the version and the number of migrated items never go down.
Reach-KeepsPlan :
    {d : DateApi} {m u : SecurityDomainMigration}
    → Reach d m u
    → KeepsPlan m u × (m.version ≤ u.version) × (m.migrated_items ≤ u.migrated_items)
Reach-KeepsPlan {m} here = (KeepsPlan-refl m, omega arith, omega arith)
Reach-KeepsPlan (next r st) =
    let (k, v, g) = Reach-KeepsPlan r in
    let (k', v', g') = Step-KeepsPlan st in (KeepsPlan-trans k k', omega arith, omega arith)

-- `committed` and `rolled_back` are final.
pub final :
    {d : DateApi} {m u : SecurityDomainMigration}
    → Step d m u
    → (m.state ≢ committed) × (m.state ≢ rolled_back)
unfolding transition_security_migration checkpoint_security_migration
final (transition target at_utc failure e) = ground arith
final (checkpoint c e) = ground arith

-- A transition or a checkpoint makes a migration committed only out of the state verifying.
commit_from_verifying :
    {d : DateApi} {m u : SecurityDomainMigration}
    → Step d m u
    → u.state ≡ committed
    → m.state ≡ verifying
unfolding transition_security_migration checkpoint_security_migration
commit_from_verifying (transition target at_utc failure e) h = ground arith
commit_from_verifying (checkpoint c e) h = ground arith
