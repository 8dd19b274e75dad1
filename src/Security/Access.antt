-- ===== src/Security/Access.antt =====
-- packages/domain/src/security-access.ts: capabilities, grants and canonical timestamps.
use project_process_map.Base.{
  ℕ, ◌≡◌, Bool, true, false, not, ◌&&◌, Option, none, some, arith, ◌↔◌, if◌then◌else◌, leb, Eq,
  ◌==◌, ◌!=◌,
}
use project_process_map.Base.Equality.{enum_eq, option_eq, list_eq, nat_eq}
use project_process_map.Base.Dates.{DateApi}
use project_process_map.Base.Text.{Text, text}
use project_process_map.Base.Text.Shapes.{has_shape}

pub data SecurityCapability : Type 0 where
  view contribute edit manage_access : SecurityCapability

pub data Status : Type 0 where
  active revoked : Status

abbrev status_rank : Status → ℕ
status_rank active = 0
status_rank revoked = 1

pub status_rank_injective : (a b : Status) → status_rank a ≡ status_rank b → a ≡ b
status_rank_injective a b h = ground arith

instance abbrev pub status_eq : Eq Status
status_eq = enum_eq status_rank status_rank_injective

pub record SecurityDomain : Type 0 where
  pub tenant_id : Text
  pub id : Text
  pub project_id : Text
  pub root_node_id : Text
  pub parent_security_domain_id : Option Text
  pub permission_version : ℕ
  pub version : ℕ
  pub created_by_principal_id : Text
  pub created_at_utc : Text
  pub deleted_at_utc : Option Text

pub record SecurityGrant : Type 0 where
  pub tenant_id : Text
  pub id : Text
  pub security_domain_id : Text
  pub principal_id : Text
  pub capability : SecurityCapability
  pub status : Status
  pub expires_at_utc : Option Text
  pub granted_by_principal_id : Text
  pub reason : Text
  pub version : ℕ
  pub created_at_utc : Text
  pub updated_at_utc : Text

abbrev pub capability_rank : SecurityCapability → ℕ
capability_rank view = 1
capability_rank contribute = 2
capability_rank edit = 3
capability_rank manage_access = 4

pub capability_rank_injective :
    (a b : SecurityCapability) → capability_rank a ≡ capability_rank b → a ≡ b
capability_rank_injective a b h = ground arith

instance abbrev pub capability_eq : Eq SecurityCapability
capability_eq = enum_eq capability_rank capability_rank_injective

-- The round trip `new Date(parsed).toISOString() === value` of a value that parses.
abbrev round_trips : DateApi → Text → Option ℕ → Bool
round_trips d value none = false
round_trips d value (some parsed) = d.to_iso_string parsed == value

abbrev pub iso_shape : Text
iso_shape = text "dddd-dd-ddTdd:dd:dd.dddZ"

unfoldable pub is_canonical_utc_timestamp : DateApi → Text → Bool
is_canonical_utc_timestamp d value =
    has_shape iso_shape value && round_trips d value (d.parse value)

-- `Date.parse(expires) <= Date.parse(at)`; a comparison with NaN is false.
abbrev not_after : Option ℕ → Option ℕ → Bool
not_after (some expires_at) (some evaluated_at) = leb expires_at evaluated_at
not_after _ _ = false

-- The test of the expiry, which a grant for good passes.
abbrev in_force : DateApi → Option Text → Text → Bool
in_force d none at_utc = true
in_force d (some expires) at_utc =
    is_canonical_utc_timestamp d expires && not (not_after (d.parse expires) (d.parse at_utc))

-- The test of a grant that is there.
pub grant_in_force : DateApi → SecurityGrant → SecurityCapability → Text → Bool
grant_in_force d grant required at_utc =
    if grant.status != active
    then false
    else if not (is_canonical_utc_timestamp d at_utc)
    then false
    else if not (in_force d grant.expires_at_utc at_utc)
    then false
    else leb (capability_rank required) (capability_rank grant.capability)

unfoldable pub grant_allows : DateApi → Option SecurityGrant → SecurityCapability → Text → Bool
unfolding grant_in_force
grant_allows d none required at_utc = false
grant_allows d (some grant) required at_utc = grant_in_force d grant required at_utc

unfoldable pub is_permanent_security_administrator : SecurityGrant → Bool
is_permanent_security_administrator grant =
    grant.status == active && grant.capability == manage_access && grant.expires_at_utc == none

-- How the validators of stored records use it.
abbrev pub is_no_timestamp : DateApi → Text → Bool
is_no_timestamp d s = not (is_canonical_utc_timestamp d s)

abbrev pub IsTimestamp : DateApi → Text → Type 0
IsTimestamp d s = is_canonical_utc_timestamp d s ≡ true

pub IsTimestamp-iff : (d : DateApi) (s : Text) → (is_no_timestamp d s ≡ false) ↔ IsTimestamp d s
IsTimestamp-iff d s = (λ h. ground arith, λ h. ground arith)
