-- ===== src/Store.antt =====
-- The part of a transaction's state (packages/adapters/src/memory/persistence.ts) that the access
-- rules and the task commands read and write. A table holds the rows of one tenant, by the key
-- without the tenant's prefix.
use project_process_map.Base.{Option, List, [], ◌∷◌, Bool, not, if◌then◌else◌}
use project_process_map.Base.Equality.{option_eq, list_eq, nat_eq}
use project_process_map.Base.Sets.{contains}
use project_process_map.Base.Text.{Text}
use project_process_map.Projects.{Principal, ProjectMembership, ProjectNode}
use project_process_map.Security.Access.{SecurityDomain, SecurityGrant}
use project_process_map.Security.Migration.{
  SecurityDomainMigration, committed, rolled_back, state_eq,
}

-- What the access rules read.
pub record Directory : Type 0 where
  pub principals : List (Text × Principal)
  pub nodes : List (Text × ProjectNode)
  pub memberships : Text → Text → Option ProjectMembership
  pub security_domains : Text → Option SecurityDomain
  pub security_grants : Text → Text → Option SecurityGrant
  pub security_migrations : List SecurityDomainMigration

abbrev pub keep {ℓ} : {A : Type ℓ} → (A → Bool) → List A → List A
keep p [] = []
keep p (x ∷ xs) = if p x then x ∷ keep p xs else keep p xs

-- `securityMigrations.listRecoverable()`
unfoldable pub list_recoverable : Directory → List SecurityDomainMigration
list_recoverable s =
    keep (λ m. not (contains (committed ∷ rolled_back ∷ []) m.state)) s.security_migrations
