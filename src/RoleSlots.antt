-- ===== src/RoleSlots.antt =====
-- packages/domain/src/role-slots.ts: role slots of a project, their bindings to candidates, and the
-- validators of the stored records. The tests on `typeof` pass for every value of a record's type;
-- a fault stands for the message of the thrown error, without the values that the message quotes.
pub mod Candidates
pub mod Records
use Prim.Native.Nat.{Ordering}
use project_process_map.Base.{
  ℕ, ◌≡◌, refl, Bool, true, false, not, ◌||◌, Option, none, some, List, [], ◌∷◌, leb, if◌then◌else◌,
  ◌!=◌, ◌==◌,
}
use project_process_map.Base.Equality.{list_eq, nat_eq}
use project_process_map.Base.Results.{Result, ok, err, ◌>>=◌, ◌>>◌, throw_if}
use project_process_map.Base.Checks.{drifts, given_and}
use project_process_map.Base.Dates.{DateApi}
use project_process_map.Base.Sets.{set_of, set_from}
use project_process_map.Base.Order.{sort}
use project_process_map.Base.Text.{Text, text, text_lt, trim}
use project_process_map.Base.Text.Shapes.{is_key, is_padded_or_empty}
use project_process_map.Security.Access.{is_no_timestamp}

pub record TemplateRoleSlot : Type 0 where
  pub tenant_id : Text
  pub project_id : Text
  pub slot_key : Text
  pub source_template_version_id : Text
  pub name : Text
  pub description : Option Text
  pub created_at_utc : Text

pub record ProjectRoleBinding : Type 0 where
  pub tenant_id : Text
  pub project_id : Text
  pub slot_key : Text
  pub principal_ids : List Text
  pub version : ℕ
  pub updated_at_utc : Text
  pub updated_by_principal_id : Text

unfoldable pub compare_exact_strings : Text → Text → Ordering
compare_exact_strings a b =
    if text_lt a b then Ordering.lt else if text_lt b a then Ordering.gt else Ordering.eq

unfoldable pub normalize_candidate_ids : List Text → List Text
normalize_candidate_ids candidate_ids = sort (set_of candidate_ids)

pub data RoleFault : Type 0 where
  invalid_role_slot_key tenant_drift project_drift slot_drift : RoleFault
  invalid_tenant invalid_project invalid_slot_key invalid_version : RoleFault
  invalid_updated_at invalid_updated_by padded_candidate duplicate_candidate : RoleFault
  unordered_candidates invalid_template_version invalid_name invalid_description : RoleFault
  invalid_created_at invalid_created_by invalid_id invalid_actor invalid_action : RoleFault
  duplicate_slot_key unordered_slot_keys invalid_occurred_at : RoleFault

pub record RoleScope : Type 0 where
  pub tenant_id : Option Text
  pub project_id : Option Text
  pub slot_key : Option Text

abbrev pub Check : Type 0
Check = Result RoleFault (Unit {0})

unfoldable pub assert_valid_slot_key : Text → Check
assert_valid_slot_key slot_key = throw_if (not (is_key slot_key)) invalid_role_slot_key

-- `try { assertValidSlotKey(key) } catch { throw ... }`
abbrev pub rethrow : Check → RoleFault → Check
rethrow (ok u) fault = ok u
rethrow (err e) fault = err fault

-- `prevId !== null` and the comparison of the two.
abbrev pub repeats : Option Text → Text → Bool
repeats none id = false
repeats (some previous) id = elim (compare_exact_strings previous id) [
  | Ordering.eq ↦ true
  | _ ↦ false
]

abbrev pub descends : Option Text → Text → Bool
descends none id = false
descends (some previous) id = elim (compare_exact_strings previous id) [
  | Ordering.gt ↦ true
  | _ ↦ false
]

-- The loop over `binding.principalIds`.
unfoldable pub check_candidates : Option Text → List Text → Check
check_candidates previous [] = ok tt
check_candidates previous (id ∷ ids) = do
  throw_if (is_padded_or_empty id) padded_candidate
  throw_if (repeats previous id) duplicate_candidate
  throw_if (descends previous id) unordered_candidates
  check_candidates (some id) ids

-- The loop over `entry.slotKeys`.
unfoldable pub check_slot_keys : Option Text → List Text → Check
unfolding assert_valid_slot_key
check_slot_keys previous [] = ok tt
check_slot_keys previous (key ∷ keys) = do
  rethrow (assert_valid_slot_key key) invalid_slot_key
  throw_if (repeats previous key) duplicate_slot_key
  throw_if (descends previous key) unordered_slot_keys
  check_slot_keys (some key) keys

unfoldable pub assert_canonical_project_role_binding :
    DateApi → RoleScope → ProjectRoleBinding → Check
unfolding assert_valid_slot_key
assert_canonical_project_role_binding d scope binding = do
  throw_if (drifts scope.tenant_id binding.tenant_id) tenant_drift
  throw_if (drifts scope.project_id binding.project_id) project_drift
  throw_if (drifts scope.slot_key binding.slot_key) slot_drift
  throw_if (is_padded_or_empty binding.tenant_id) invalid_tenant
  throw_if (is_padded_or_empty binding.project_id) invalid_project
  rethrow (assert_valid_slot_key binding.slot_key) invalid_slot_key
  throw_if (leb binding.version 0) invalid_version
  throw_if (is_no_timestamp d binding.updated_at_utc) invalid_updated_at
  throw_if (is_padded_or_empty binding.updated_by_principal_id) invalid_updated_by
  check_candidates none binding.principal_ids

unfoldable pub assert_canonical_template_role_slot : DateApi → RoleScope → TemplateRoleSlot → Check
unfolding assert_valid_slot_key
assert_canonical_template_role_slot d scope slot = do
  throw_if (drifts scope.tenant_id slot.tenant_id) tenant_drift
  throw_if (drifts scope.project_id slot.project_id) project_drift
  throw_if (drifts scope.slot_key slot.slot_key) slot_drift
  throw_if (is_padded_or_empty slot.tenant_id) invalid_tenant
  throw_if (is_padded_or_empty slot.project_id) invalid_project
  rethrow (assert_valid_slot_key slot.slot_key) invalid_slot_key
  throw_if (is_padded_or_empty slot.source_template_version_id) invalid_template_version
  throw_if (is_padded_or_empty slot.name) invalid_name
  throw_if (given_and (λ s. trim s != s) slot.description) invalid_description
  throw_if (is_no_timestamp d slot.created_at_utc) invalid_created_at

pub record ProjectRoleSlotSnapshot : Type 0 where
  pub tenant_id : Text
  pub project_id : Text
  pub source_template_version_id : Text
  pub created_at_utc : Text
  pub created_by_principal_id : Text

pub record ProjectRoleScope : Type 0 where
  pub tenant_id : Option Text
  pub project_id : Option Text

unfoldable pub assert_canonical_project_role_slot_snapshot :
    DateApi → ProjectRoleScope → ProjectRoleSlotSnapshot → Check
assert_canonical_project_role_slot_snapshot d scope snapshot = do
  throw_if (drifts scope.tenant_id snapshot.tenant_id) tenant_drift
  throw_if (drifts scope.project_id snapshot.project_id) project_drift
  throw_if (is_padded_or_empty snapshot.tenant_id) invalid_tenant
  throw_if (is_padded_or_empty snapshot.project_id) invalid_project
  throw_if (is_padded_or_empty snapshot.source_template_version_id) invalid_template_version
  throw_if (is_no_timestamp d snapshot.created_at_utc) invalid_created_at
  throw_if (is_padded_or_empty snapshot.created_by_principal_id) invalid_created_by

pub record ProjectRoleSlotAuditEntry : Type 0 where
  pub tenant_id : Text
  pub id : Text
  pub project_id : Text
  pub actor_principal_id : Text
  pub source_template_version_id : Text
  pub action : Text
  pub slot_keys : List Text
  pub occurred_at_utc : Text

unfoldable pub assert_canonical_project_role_slot_audit_entry :
    DateApi → ProjectRoleScope → ProjectRoleSlotAuditEntry → Check
assert_canonical_project_role_slot_audit_entry d scope entry = do
  throw_if (drifts scope.tenant_id entry.tenant_id) tenant_drift
  throw_if (drifts scope.project_id entry.project_id) project_drift
  throw_if (is_padded_or_empty entry.tenant_id) invalid_tenant
  throw_if (is_padded_or_empty entry.id) invalid_id
  throw_if (is_padded_or_empty entry.project_id) invalid_project
  throw_if (is_padded_or_empty entry.actor_principal_id) invalid_actor
  throw_if (is_padded_or_empty entry.source_template_version_id) invalid_template_version
  throw_if (entry.action != text "initialized") invalid_action
  check_slot_keys none entry.slot_keys
  throw_if (is_no_timestamp d entry.occurred_at_utc) invalid_occurred_at
