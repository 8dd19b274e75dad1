-- ===== src/RoleSlots/Records.antt =====
-- The stored records of packages/domain/src/role-slots.ts that their validators accept.
use project_process_map.Base.{ℕ, ◌<◌, ◌≡◌, ◌↔◌, true, false, none, leb, arith}
use project_process_map.Base.Equality.{list_eq, nat_eq}
use project_process_map.Base.Results.{ok, then_iff, also_iff}
use project_process_map.Base.Checks.{InScope, InScope-iff}
use project_process_map.Base.Dates.{DateApi}
use project_process_map.Base.Text.{Text}
use project_process_map.Base.Text.Shapes.{IsCanonicalText, IsCanonicalText-iff, is_key}
use project_process_map.Security.Access.{IsTimestamp, IsTimestamp-iff}
use project_process_map.RoleSlots.{
  ProjectRoleBinding, RoleScope, RoleFault, assert_valid_slot_key, rethrow,
  assert_canonical_project_role_binding,
}
use project_process_map.RoleSlots.Candidates.{IsListing, check_candidates_iff}

key_iff :
    (key : Text) (e : RoleFault)
    → (rethrow (assert_valid_slot_key key) e ≡ ok tt) ↔ (is_key key ≡ true)
unfolding assert_valid_slot_key
key_iff key e = (λ h. ground arith, λ h. ground arith)

positive_iff : (n : ℕ) → (leb n 0 ≡ false) ↔ (0 < n)
positive_iff n = (λ h. ground arith, λ h. ground arith)

pub record IsCanonicalBinding (d : DateApi) (scope : RoleScope) (b : ProjectRoleBinding)
    : Type 0 where
  pub in_scope :
      InScope scope.tenant_id b.tenant_id
      × (InScope scope.project_id b.project_id × InScope scope.slot_key b.slot_key)
  pub tenant : IsCanonicalText b.tenant_id
  pub project : IsCanonicalText b.project_id
  pub key : is_key b.slot_key ≡ true
  pub version : 0 < b.version
  pub updated : IsTimestamp d b.updated_at_utc
  pub updater : IsCanonicalText b.updated_by_principal_id
  pub candidates : IsListing none b.principal_ids

-- The validator accepts a binding in a scope exactly when it is canonical there: in the scope, with canonical identifiers, a valid slot key, a positive version, a canonical timestamp, and canonical candidates in strictly ascending order.
binding_accepted_iff :
    (d : DateApi) (scope : RoleScope) (b : ProjectRoleBinding)
    → (assert_canonical_project_role_binding d scope b ≡ ok tt) ↔ IsCanonicalBinding d scope b
unfolding assert_canonical_project_role_binding
binding_accepted_iff d scope b =
    let (there, back) = then_iff _ (InScope-iff scope.tenant_id b.tenant_id) (
      then_iff _ (InScope-iff scope.project_id b.project_id) (
        then_iff _ (InScope-iff scope.slot_key b.slot_key) (
          then_iff _ (IsCanonicalText-iff b.tenant_id) (
            then_iff _ (IsCanonicalText-iff b.project_id) (
              also_iff (key_iff b.slot_key _) (
                then_iff _ (positive_iff b.version) (
                  then_iff _ (IsTimestamp-iff d b.updated_at_utc) (
                    then_iff _ (IsCanonicalText-iff b.updated_by_principal_id)
                      (check_candidates_iff none b.principal_ids))))))))) in
    (
      λ h.
          let c = there h in
          record {
            in_scope = (c.0, (c.1.0, c.1.1.0));
            tenant = c.1.1.1.0;
            project = c.1.1.1.1.0;
            key = c.1.1.1.1.1.0;
            version = c.1.1.1.1.1.1.0;
            updated = c.1.1.1.1.1.1.1.0;
            updater = c.1.1.1.1.1.1.1.1.0;
            candidates = c.1.1.1.1.1.1.1.1.1;
          },
      λ c. back (
        c.in_scope.0,
        (
          c.in_scope.1.0,
          (
            c.in_scope.1.1,
            (c.tenant, (c.project, (c.key, (c.version, (c.updated, (c.updater, c.candidates)))))),
          ),
        ),
      ),
    )
