-- ===== src/Ownership.antt =====
-- packages/adapters/src/memory/persistence.ts: the moves of an object from one security domain to
-- another and back (`migrateSecurityOwnership`, `rollbackSecurityOwnership` of tasks, assets and
-- deliverables, whose code is the same but for the names of the first two errors).
-- The tables hold the rows of one tenant, by the key without the tenant's prefix.
pub mod Moves
use project_process_map.Base.{
  ℕ, ◌+◌, ◌≡◌, refl, Bool, true, false, not, ◌&&◌, ◌||◌, Option, none, some, List, [], ◌∷◌, leb,
  ◌==◌, ◌!=◌,
}
use project_process_map.Base.Equality.{option_eq, list_eq, nat_eq}
use project_process_map.Base.Results.{Result, ok, err, ◌>>=◌, ◌>>◌, throw_if, or_throw}
use project_process_map.Base.Sets.{contains}
use project_process_map.Base.Tables.{get, put}
use project_process_map.Base.Text.{Text}
use project_process_map.Store.{Directory}
use project_process_map.Access.{MigrationScope, inside, migration_scope}
use project_process_map.Assets.{Asset}
use project_process_map.Deliverables.{DeliverableRequirement}
use project_process_map.Security.Migration.{
  SecurityDomainMigration, planned, active, verifying, retryable, recovery_required, state_eq,
}
use project_process_map.Tasks.{ProductTask}

pub data OwnershipError : Type 0 where
  object_not_found version_conflict security_migration_object_not_eligible : OwnershipError

-- Where an object stands, and the version that counts its changes.
pub record Place : Type 0 where
  pub project_id : Text
  pub owner_node_id : Text
  pub security_domain_id : Option Text
  pub security_epoch : ℕ
  pub version : ℕ

-- `{ ...current, securityDomainId, securityEpoch, version }` on a type of objects.
pub record Owned (T : Type 0) : Type 0 where
  pub place : T → Place
  pub moved : T → Option Text → (epoch version : ℕ) → T
  pub place-moved :
      (x : T) (domain : Option Text) (epoch version : ℕ)
      → place (moved x domain epoch version) ≡ record (place x) {
        security_domain_id = domain;
        security_epoch = epoch;
        version = version;
      }
  pub moved-moved :
      (x : T) (domain again : Option Text) (epoch version late next : ℕ)
      → moved (moved x domain epoch version) again late next ≡ moved x again late next

abbrev pub task_place : ProductTask → Place
task_place t = record {
  project_id = t.project_id;
  owner_node_id = t.owner_node_id;
  security_domain_id = t.security_domain_id;
  security_epoch = t.security_epoch;
  version = t.version;
}

abbrev pub moved_task : ProductTask → Option Text → (epoch version : ℕ) → ProductTask
moved_task t domain epoch version = record t {
  security_domain_id = domain;
  security_epoch = epoch;
  version = version;
}

instance abbrev pub owned_task : Owned ProductTask
owned_task = record {
  place = task_place;
  moved = moved_task;
  place-moved = λ x domain epoch version. refl;
  moved-moved = λ x domain again epoch version late next. refl;
}

abbrev pub asset_place : Asset → Place
asset_place a = record {
  project_id = a.project_id;
  owner_node_id = a.owner_node_id;
  security_domain_id = a.security_domain_id;
  security_epoch = a.security_epoch;
  version = a.version;
}

abbrev pub moved_asset : Asset → Option Text → (epoch version : ℕ) → Asset
moved_asset a domain epoch version = record a {
  security_domain_id = domain;
  security_epoch = epoch;
  version = version;
}

instance abbrev pub owned_asset : Owned Asset
owned_asset = record {
  place = asset_place;
  moved = moved_asset;
  place-moved = λ x domain epoch version. refl;
  moved-moved = λ x domain again epoch version late next. refl;
}

abbrev pub deliverable_place : DeliverableRequirement → Place
deliverable_place r = record {
  project_id = r.project_id;
  owner_node_id = r.owner_node_id;
  security_domain_id = r.security_domain_id;
  security_epoch = r.security_epoch;
  version = r.version;
}

abbrev pub moved_deliverable :
    DeliverableRequirement → Option Text → (epoch version : ℕ) → DeliverableRequirement
moved_deliverable r domain epoch version = record r {
  security_domain_id = domain;
  security_epoch = epoch;
  version = version;
}

instance abbrev pub owned_deliverable : Owned DeliverableRequirement
owned_deliverable = record {
  place = deliverable_place;
  moved = moved_deliverable;
  place-moved = λ x domain epoch version. refl;
  moved-moved = λ x domain again epoch version late next. refl;
}

-- The two ends of a migration are the same, or an epoch is not positive.
abbrev pub has_no_ends : SecurityDomainMigration → Bool
has_no_ends m =
    leb m.source_security_epoch 0
    || leb m.target_security_epoch 0
    || m.source_security_domain_id == m.target_security_domain_id
      && m.source_security_epoch == m.target_security_epoch

unfoldable pub migration_for_object_write :
    List (Text × SecurityDomainMigration)
    → (migration_id : Text) → Result OwnershipError SecurityDomainMigration
migration_for_object_write migrations migration_id = do
  m ← or_throw (get migrations migration_id) security_migration_object_not_eligible
  throw_if (m.state != active || has_no_ends m) security_migration_object_not_eligible
  ok m

unfoldable pub migration_for_object_rollback :
    List (Text × SecurityDomainMigration)
    → (migration_id : Text) → Result OwnershipError SecurityDomainMigration
migration_for_object_rollback migrations migration_id = do
  m ← or_throw (get migrations migration_id) security_migration_object_not_eligible
  throw_if
      (not (contains (planned ∷ active ∷ verifying ∷ retryable ∷ recovery_required ∷ []) m.state)
        || has_no_ends m)
      security_migration_object_not_eligible
  ok m

abbrev pub is_inside : MigrationScope → Bool
is_inside inside = true
is_inside _ = false

-- The loop is the one of `migrationScope` in
-- packages/application/src/access/project-security.ts, with one error for all its other ends.
unfoldable pub assert_migration_scope :
    Directory → SecurityDomainMigration → (owner_node_id : Text) → Result OwnershipError (Unit {0})
assert_migration_scope s m owner_node_id =
    throw_if (not (is_inside (migration_scope s m.project_id owner_node_id m.root_node_id)))
      security_migration_object_not_eligible

abbrev pub stands_at : Place → (project_id : Text) → Option Text → ℕ → Bool
stands_at p project_id domain epoch =
    p.project_id == project_id && p.security_domain_id == domain && p.security_epoch == epoch

module _ {T : Type 0} ⦃owned : Owned T⦄ where
  -- From `(domain, epoch)` to `(target, late)`, which is what the two operations have in common.
  unfoldable pub move_object :
      Directory
      → SecurityDomainMigration
      → List (Text × T)
      → (id : Text) → (expected_version : ℕ) → (domain : Option Text) → (epoch : ℕ)
      → (target : Option Text) → (late : ℕ) → Result OwnershipError (T × List (Text × T))
  move_object s m table id expected_version domain epoch target late = do
    current ← or_throw (get table id) object_not_found
    throw_if ((owned.place current).version != expected_version) version_conflict
    assert_migration_scope s m (owned.place current).owner_node_id
    throw_if (not (stands_at (owned.place current) m.project_id domain epoch))
        security_migration_object_not_eligible
    let updated = owned.moved current target late ((owned.place current).version + 1)
    ok (updated, put table id updated)

  unfoldable pub migrate_security_ownership :
      Directory
      → List (Text × SecurityDomainMigration)
      → List (Text × T)
      → (migration_id id : Text) → (expected_version : ℕ)
      → Result OwnershipError (T × List (Text × T))
  migrate_security_ownership s migrations table migration_id id expected_version = do
    m ← migration_for_object_write migrations migration_id
    move_object s m table id expected_version m.source_security_domain_id m.source_security_epoch
        m.target_security_domain_id m.target_security_epoch

  unfoldable pub rollback_security_ownership :
      Directory
      → List (Text × SecurityDomainMigration)
      → List (Text × T)
      → (migration_id id : Text) → (expected_version : ℕ)
      → Result OwnershipError (T × List (Text × T))
  rollback_security_ownership s migrations table migration_id id expected_version = do
    m ← migration_for_object_rollback migrations migration_id
    move_object s m table id expected_version m.target_security_domain_id m.target_security_epoch
        m.source_security_domain_id m.source_security_epoch

-- The operations of the three repositories.
abbrev pub migrate_task :
    Directory
    → List (Text × SecurityDomainMigration)
    → List (Text × ProductTask)
    → (migration_id id : Text) → (expected_version : ℕ)
    → Result OwnershipError (ProductTask × List (Text × ProductTask))
migrate_task = migrate_security_ownership

abbrev pub rollback_task :
    Directory
    → List (Text × SecurityDomainMigration)
    → List (Text × ProductTask)
    → (migration_id id : Text) → (expected_version : ℕ)
    → Result OwnershipError (ProductTask × List (Text × ProductTask))
rollback_task = rollback_security_ownership

abbrev pub migrate_asset :
    Directory
    → List (Text × SecurityDomainMigration)
    → List (Text × Asset)
    → (migration_id id : Text) → (expected_version : ℕ)
    → Result OwnershipError (Asset × List (Text × Asset))
migrate_asset = migrate_security_ownership

abbrev pub rollback_asset :
    Directory
    → List (Text × SecurityDomainMigration)
    → List (Text × Asset)
    → (migration_id id : Text) → (expected_version : ℕ)
    → Result OwnershipError (Asset × List (Text × Asset))
rollback_asset = rollback_security_ownership

abbrev pub migrate_deliverable :
    Directory
    → List (Text × SecurityDomainMigration)
    → List (Text × DeliverableRequirement)
    → (migration_id id : Text) → (expected_version : ℕ)
    → Result OwnershipError (DeliverableRequirement × List (Text × DeliverableRequirement))
migrate_deliverable = migrate_security_ownership

abbrev pub rollback_deliverable :
    Directory
    → List (Text × SecurityDomainMigration)
    → List (Text × DeliverableRequirement)
    → (migration_id id : Text) → (expected_version : ℕ)
    → Result OwnershipError (DeliverableRequirement × List (Text × DeliverableRequirement))
rollback_deliverable = rollback_security_ownership
