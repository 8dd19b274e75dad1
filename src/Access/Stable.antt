-- ===== src/Access/Stable.antt =====
-- `assertProjectSecurityStable` of packages/application/src/access/project-security.ts.
use project_process_map.Base.{
  ◌≡◌, ◌⊎◌, ◌↔◌, inl, inr, refl, List, [], ◌∷◌, Bool, true, false, not, ◌==◌, Bool-cases, arith,
  any, eq_of, All,
}
use project_process_map.Base.Equality.{option_eq, list_eq, nat_eq}
use project_process_map.Base.Results.{ok, throw_if-ok_iff}
use project_process_map.Base.Sets.{contains}
use project_process_map.Base.Text.{Text}
use project_process_map.Projects.{role_eq}
use project_process_map.Security.Access.{capability_eq, status_eq}
use project_process_map.Security.Migration.{
  SecurityDomainMigration, committed, rolled_back, state_eq,
}
use project_process_map.Store.{Directory, keep, list_recoverable}
use project_process_map.Access.{assert_project_security_stable, security_migration_in_progress}

-- A migration of the project has ended.
abbrev pub IsEnded : Text → SecurityDomainMigration → Type 0
IsEnded project_id m =
    (m.project_id == project_id) ≡ true → (m.state ≡ committed) ⊎ (m.state ≡ rolled_back)

abbrev is_open : SecurityDomainMigration → Bool
is_open m = not (contains (committed ∷ rolled_back ∷ []) m.state)

abbrev open_in : Text → List SecurityDomainMigration → Bool
open_in project_id ms = any (λ m. m.project_id == project_id) (keep is_open ms)

IsEnded-cons :
    (project_id : Text) (m : SecurityDomainMigration) (ms : List SecurityDomainMigration)
    → (open_in project_id (m ∷ ms) ≡ false)
      ↔ (IsEnded project_id m × (open_in project_id ms ≡ false))
IsEnded-cons project_id m ms = (
  λ h. (
    λ here. elim (Bool-cases (m.state == committed)) [
      | inl e ↦ inl (eq_of m.state committed e)
      | inr e ↦ inr (eq_of m.state rolled_back (ground arith))
    ],
    ground arith,
  ),
  λ h. back h.0 h.1,
)
  where
    back :
        IsEnded project_id m → open_in project_id ms ≡ false → open_in project_id (m ∷ ms) ≡ false
    back h rest = elim (Bool-cases (m.project_id == project_id)) [
      | inl here ↦ elim (h here) [ inl e ↦ ground arith | inr e ↦ ground arith ]
      | inr other ↦ ground arith
    ]

-- What holds security changes back: the check passes exactly when every migration of the project, if there is any, is committed or rolled back.
pub stable_iff :
    (s : Directory) (project_id : Text)
    → (assert_project_security_stable s project_id ≡ ok tt)
      ↔ All (IsEnded project_id) s.security_migrations
unfolding assert_project_security_stable list_recoverable
stable_iff s project_id = (
  λ h. none_open s.security_migrations ((throw_if-ok_iff _ security_migration_in_progress).0 h),
  λ h. (throw_if-ok_iff _ security_migration_in_progress).1 (all_ended s.security_migrations h),
)
  where
    none_open :
        (ms : List SecurityDomainMigration)
        → open_in project_id ms ≡ false
        → All (IsEnded project_id) ms
    none_open [] h = tt
    none_open (m ∷ ms) h =
        let (ended, rest) = (IsEnded-cons project_id m ms).0 h in (ended, none_open ms rest)

    all_ended :
        (ms : List SecurityDomainMigration)
        → All (IsEnded project_id) ms
        → open_in project_id ms ≡ false
    all_ended [] h = refl
    all_ended (m ∷ ms) (h, hs) = (IsEnded-cons project_id m ms).1 (h, all_ended ms hs)
