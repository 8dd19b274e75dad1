-- ===== src/Assets.antt =====
-- packages/domain/src/assets.ts: the life of an uploaded file.
pub mod Life
use project_process_map.Base.{
  ℕ, ◌+◌, ◌≡◌, refl, Bool, true, false, not, ◌&&◌, ◌||◌, Option, none, some, List, [], ◌∷◌,
  if◌then◌else◌, Eq, ◌==◌, ◌!=◌, arith,
}
use project_process_map.Base.Equality.{enum_eq, option_eq, list_eq, nat_eq}
use project_process_map.Base.Results.{Result, ok, err, ◌>>=◌, ◌>>◌, throw_if}
use project_process_map.Base.Dates.{DateApi, is_some}
use project_process_map.Base.Sets.{contains}
use project_process_map.Base.Text.{Text, is_blank}

pub data AssetLifecycleState : Type 0 where
  initiated uploading scanning available quarantined failed deleted : AssetLifecycleState

abbrev pub state_rank : AssetLifecycleState → ℕ
state_rank initiated = 0
state_rank uploading = 1
state_rank scanning = 2
state_rank available = 3
state_rank quarantined = 4
state_rank failed = 5
state_rank deleted = 6

pub state_rank_injective : (a b : AssetLifecycleState) → state_rank a ≡ state_rank b → a ≡ b
state_rank_injective a b h = ground arith

instance abbrev pub state_eq : Eq AssetLifecycleState
state_eq = enum_eq state_rank state_rank_injective

pub record Asset : Type 0 where
  pub tenant_id : Text
  pub id : Text
  pub project_id : Text
  pub owner_node_id : Text
  pub security_domain_id : Option Text
  pub security_epoch : ℕ
  pub uploader_principal_id : Text
  pub display_name : Text
  pub content_type : Text
  pub size : ℕ
  pub sha256 : Text
  pub lifecycle_state : AssetLifecycleState
  pub failure_code : Option Text
  pub version : ℕ
  pub deleted_at_utc : Option Text

-- `failureCode?: string | null` and `occurredAtUtc?: string`.
pub record TransitionOptions : Type 0 where
  pub failure_code : Option (Option Text)
  pub occurred_at_utc : Option Text

pub data AssetError : Type 0 where
  asset_transition_invalid asset_failure_code_required asset_deletion_time_required : AssetError
  asset_not_available : AssetError

unfoldable pub allowed : AssetLifecycleState → List AssetLifecycleState
allowed initiated = uploading ∷ failed ∷ deleted ∷ []
allowed uploading = scanning ∷ failed ∷ deleted ∷ []
allowed scanning = available ∷ quarantined ∷ failed ∷ deleted ∷ []
allowed available = deleted ∷ []
allowed quarantined = deleted ∷ []
allowed failed = uploading ∷ deleted ∷ []
allowed deleted = []

-- `options.failureCode ?? null`
abbrev pub or_null : Option (Option Text) → Option Text
or_null none = none
or_null (some code) = code

-- `code === null || code.trim().length === 0`
abbrev pub is_missing : Option Text → Bool
is_missing none = true
is_missing (some s) = is_blank s

-- `time === undefined || Number.isNaN(Date.parse(time))`
abbrev pub is_no_time : DateApi → Option Text → Bool
is_no_time d none = true
is_no_time d (some s) = not (is_some (d.parse s))

unfoldable pub transition_asset :
    DateApi → Asset → AssetLifecycleState → TransitionOptions → Result AssetError Asset
unfolding allowed
transition_asset d asset target options = do
  throw_if (not (contains (allowed asset.lifecycle_state) target)) asset_transition_invalid
  let failure_code = or_null options.failure_code
  throw_if (target == failed && is_missing failure_code) asset_failure_code_required
  throw_if (target == deleted && is_no_time d options.occurred_at_utc) asset_deletion_time_required
  ok (record asset {
    lifecycle_state = target;
    failure_code = if target == failed then failure_code else none;
    version = asset.version + 1;
    deleted_at_utc = if target == deleted then options.occurred_at_utc else asset.deleted_at_utc;
  })

unfoldable pub assert_asset_downloadable : Asset → Result AssetError (Unit {0})
assert_asset_downloadable asset =
    throw_if (asset.lifecycle_state != available || asset.deleted_at_utc != none)
      asset_not_available
